-- ===== src/Tests/Http.antt =====
-- Headers, urls and streams (request.hpp, address.hpp, parser.cpp, stream.cpp).
use wshttp.Prelude.{ℕ, ◌≡◌, refl, String, true, false, none, some, [], ◌∷◌, ◌++◌, replicate, arith}
use wshttp.Uri.{Ada, default_uri, fresh, read}
use wshttp.Uri.Parsing.{Outcome, read-Accepts}
use wshttp.Request.{NvFlags, Headers, size}
use wshttp.Stream.{
  inbound, new_stream, Os, recv_frame, eintr, other, got, failed, file_read_callback,
  temporal_callback_failure, data_flag_eof, count,
}
use wshttp.Stream.Reading.{file_read_callback_lem}
use wshttp.Prelude.{Option, if◌then◌else◌}
use wshttp.Stream.{Stream}
use wshttp.Stream.Files.{starts_with_slash, recv_frame-relative}
use wshttp.Stream.Handles.{HasDistinctPipe, Settled, recv_frame-Settled}

-- An `ada` whose url is its text, and which refuses the text "bad".
abbrev plain : Ada
plain = record {
  Url = String;
  parse = λ text. some text;
  set_protocol = λ url protocol. (url, true);
  validate = λ url. true;
  get_protocol = λ url. "https:";
  get_username = λ url. "";
  get_host = λ url. url;
  get_port = λ url. "";
  get_pathname = λ url. "/";
  get_search = λ url. "";
  get_hash = λ url. "";
  get_href = λ url. url;
  get_special_port = λ url. 443;
}

read-Accepts_example : Outcome plain "host" (read plain (fresh plain) "host")
read-Accepts_example = read-Accepts plain (fresh plain) "host"

abbrev no_flags : NvFlags
no_flags = record { no_index = false; no_copy_name = false; no_copy_value = false }

abbrev two_headers : Headers
two_headers = record {
  hdrs =
      record { name = 97 ∷ []; value = 98 ∷ []; flags = no_flags }
      ∷ record { name = 99 ∷ []; value = 100 ∷ []; flags = no_flags }
      ∷ [];
  index = 1;
}

size_two : size two_headers ≡ 2
unfolding size
size_two = refl

file_read_callback_lem_example :
    (file_read_callback (got 7 ∷ []) (other 11) ≡ some ((temporal_callback_failure, false), 0))
    × ((m : ℕ) × (file_read_callback (replicate 2 (failed eintr) ++ got 5 ∷ got 7 ∷ []) eintr
          ≡ some ((count 5, false), m)))
    × ((m : ℕ) × (file_read_callback (replicate 2 (failed eintr) ++ got 0 ∷ got 7 ∷ []) eintr
          ≡ some ((data_flag_eof, true), m)))
    × ((m : ℕ) × (file_read_callback
            (replicate 2 (failed eintr) ++ failed (other 11) ∷ got 7 ∷ [])
            eintr
          ≡ some ((temporal_callback_failure, false), m)))
file_read_callback_lem_example = file_read_callback_lem (got 7 ∷ []) 11 2 4

-- A system with a file behind every name, and the pipe (8, 9).
abbrev os : Os
os = record {
  open_file = λ name. some 7;
  make_pipe = some (8, 9);
  write_count = λ bytes. some 0;
  response_accepted = true;
  rst_accepted = true;
  html_object = [];
}

os-HasDistinctPipe : HasDistinctPipe os
os-HasDistinctPipe r w e = ground arith

new_fd : (new_stream inbound 1 default_uri).fd ≡ none
unfolding new_stream
new_fd = refl

recv_frame-Settled_example : Settled (recv_frame os (new_stream inbound 1 default_uri))
recv_frame-Settled_example =
    recv_frame-Settled os (new_stream inbound 1 default_uri) os-HasDistinctPipe new_fd

-- Nothing is behind an absolute path.
abbrev open_relative : String → Option ℕ
open_relative name = if starts_with_slash name then none else some 7

agree : (name : String) → starts_with_slash name ≡ false → os.open_file name ≡ open_relative name
agree name relative = rw relative refl

-- A request for "//a".
abbrev slashed : Stream
slashed = new_stream inbound 1 (record { fields = "" ∷ "" ∷ "" ∷ "" ∷ "//a" ∷ "" ∷ "" ∷ "" ∷ [] })

recv_frame-relative_example :
    recv_frame os slashed ≡ recv_frame (record (os) { open_file = open_relative }) slashed
recv_frame-relative_example = recv_frame-relative os open_relative slashed agree
