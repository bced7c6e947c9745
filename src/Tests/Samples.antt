-- ===== src/Tests/Samples.antt =====
-- Values that several of the tests use.
use wshttp.Prelude.{ℕ, String, true, false, Option, none, some, if◌then◌else◌, List, []}
use wshttp.Maps.{is_some}
use wshttp.Uri.{default_uri}
use wshttp.Session.Hooks.{Environment}
use wshttp.Address.Ip.{Printer, Sockaddr, of_port, PathPair}
use wshttp.Session.Setup.{Net}
use wshttp.Session.Transfer.{Driver}

abbrev pub ntop : List ℕ → String
ntop bytes = "::1"

abbrev pub printer : Printer
printer = record {
  ntop4 = ntop;
  ntop6 = ntop;
  with_port = λ host port. host;
  local_remote = λ l r. l;
}

-- Every call succeeds, `getsockname` with this answer.
abbrev pub net_at : Option Sockaddr → Net
net_at name = record {
  big_endian = false;
  printer = printer;
  ssl_made = true;
  bufferevent_made = true;
  accepted_fd = 5;
  bev_fd = some 5;
  nodelay_set = is_some;
  local_name = λ fd. if is_some fd then name else none;
  connecting = true;
  option_made = true;
  session_made = true;
  settings_submitted = true;
  max_concurrent_streams = 100;
}

-- nghttp2 takes every input and has nothing to send.
abbrev pub idle_driver : Driver
idle_driver = record {
  big_endian = false;
  printer = printer;
  mem_recv = λ s. (s, true);
  send = λ s. (s, true);
  want_read = λ s. true;
  want_write = λ s. true;
}

abbrev pub unbound : PathPair
unbound = record { local = of_port 0; remote = of_port 0 }

abbrev pub env : Environment
env = record {
  os = record {
    open_file = λ name. some 7;
    make_pipe = some (8, 9);
    write_count = λ bytes. some 0;
    response_accepted = true;
    rst_accepted = true;
    html_object = [];
  };
  parse = λ bytes. default_uri;
  terminated = true;
}
