-- ===== src/Stream/Files.antt =====
-- stream.cpp: the names of the files that a stream opens.
use wshttp.Prelude.{ℕ, String, ◌≡◌, refl, Bool, false, Bool-cases, inl, inr, Option, ◌==◌, nat_eq}
use wshttp.Stream.{
  Stream, Os, recv_frame, strip_slashes, send_error, send_error_body, answer_from_pipe,
  answer_from_file, send_response,
}
use wshttp.Uri.{path}

abbrev pub starts_with_slash : String → Bool
starts_with_slash String.[] = false
starts_with_slash (String.◌∷◌ c s) = Prim.Native.Char.code c == b'/'

-- The name without its leading slashes has none.
strip_slashes_lem : (s : String) → starts_with_slash (strip_slashes s) ≡ false
unfolding strip_slashes
strip_slashes_lem String.[] = refl
strip_slashes_lem (String.◌∷◌ c s) = elim (Bool-cases (Prim.Native.Char.code c == b'/')) [
  | inl slash ↦ rw (strip_slashes, slash) (strip_slashes_lem s)
  | inr other ↦ rw (strip_slashes, other) other
]

-- A request opens no file by an absolute path: its answer is the same whatever the system would open
-- under the names that begin with a slash.
pub recv_frame-relative :
    (os : Os) (open_other : String → Option ℕ) (st : Stream)
    → ((name : String) → starts_with_slash name ≡ false → os.open_file name ≡ open_other name)
    → recv_frame os st ≡ recv_frame (record os { open_file = open_other }) st
unfolding recv_frame send_error send_error_body answer_from_pipe answer_from_file send_response
recv_frame-relative os open_other st same =
    rw (recv_frame, same (strip_slashes (path st.req)) (strip_slashes_lem (path st.req))) refl
