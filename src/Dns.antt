-- ===== src/Dns.antt =====
-- include/wshttp/dns.hpp and src/dns.cpp, with the names of the requests of src/utils.cpp. What
-- libevent and the system answer are arguments.
use wshttp.Prelude.{
  ℕ, ◌+◌, length, ◌≡◌, refl, ap, String, Bool, true, false, Option, none, some, List, [], ◌∷◌, ◌++◌,
  map, if◌then◌else◌,
}
use wshttp.Prelude.Outcome.{Result, ok, throw, runtime_error, null_access, ◌>>◌, ◌>>=◌, require}
use Prim.Native.String.{◌++◌ as joined}
use wshttp.Format.{Level, critical, debug}
use wshttp.Encoding.{two, host_to_big}

-- `EVDNS_TYPE_A` and the others.
pub data QuestionType : Type 0 where
  a cname ptr aaaa soa : QuestionType
  unknown : ℕ → QuestionType

unfoldable pub translate_req_type : QuestionType → String
translate_req_type a = "IPV4(A)-REQUEST"
translate_req_type cname = "CNAME-REQUEST"
translate_req_type ptr = "PTR-REQUEST"
translate_req_type aaaa = "IPV6(AAAA)-REQUEST"
translate_req_type soa = "SOA-REQUEST"
translate_req_type (unknown _) = "UNKNOWN-REQUEST"

-- `EVDNS_CLASS_INET` and the others.
pub data QuestionClass : Type 0 where
  class_inet : QuestionClass
  class_other : ℕ → QuestionClass

pub record Question : Type 0 where
  pub name : String
  pub type : QuestionType
  pub dns_question_class : QuestionClass

-- What the server asks of libevent. The address in a reply is the pointer `res`, which is never
-- set, so it is no part of the model.
pub data Reply : Type 0 where
  a_reply aaaa_reply : (name : String) (count ttl : ℕ) → Reply
  respond drop : Reply

-- `main_lookup`
unfoldable pub main_lookup : Question → Reply
main_lookup q = elim q.type [ aaaa ↦ aaaa_reply q.name 1 10 | _ ↦ a_reply q.name 1 10 ]

-- The loop of `server_cb`.
unfoldable pub answer_questions : List Question → List Reply
unfolding main_lookup
answer_questions [] = []
answer_questions (q ∷ qs) =
    let rest = answer_questions qs in
    elim q.type [
      | a ↦ main_lookup q ∷ rest
      | aaaa ↦ main_lookup q ∷ rest
      | cname ↦ main_lookup q ∷ rest
      | ptr ↦ rest
      | soa ↦ rest
      | unknown _ ↦ rest
    ]

-- `evdns_server_request`; `nquestions` is the number of its questions.
pub record Request : Type 0 where
  pub flags : ℕ
  pub questions : List Question

unfoldable pub translate_dns_req_class : QuestionClass → String
translate_dns_req_class class_inet = "CLASS-INET"
translate_dns_req_class (class_other _) = "CLASS-UNKNOWN"

abbrev pub concat : List String → String
concat [] = ""
concat (part ∷ parts) = joined part (concat parts)

-- The part of the message on the question of the index `i`.
unfoldable pub print_question : (dec : ℕ → String) → (i : ℕ) → Question → String
unfolding translate_req_type translate_dns_req_class
print_question dec i q = concat (
    "Question #"
    ∷ dec (i + 1)
    ∷ ":\nName: "
    ∷ q.name
    ∷ " -- Type: "
    ∷ translate_req_type q.type
    ∷ " -- Class: "
    ∷ translate_dns_req_class q.dns_question_class
    ∷ [])

unfoldable pub print_questions : (dec : ℕ → String) → (i : ℕ) → List Question → String
unfolding print_question
print_questions dec i [] = ""
print_questions dec i (q ∷ qs) = joined (print_question dec i q) (print_questions dec (i + 1) qs)

-- The message, with `dec` what fmt prints a number as; a null request is read through.
unfoldable pub print_dns_req : (dec : ℕ → String) → Option Request → Result String
unfolding print_questions
print_dns_req dec none = throw null_access
print_dns_req dec (some req) = ok (
    joined
      (concat (
        "\n----- INCOMING REQUEST -----\nFlags: "
        ∷ dec req.flags
        ∷ "\nNum questions: "
        ∷ dec (length req.questions)
        ∷ "\n"
        ∷ []))
      (print_questions dec 0 req.questions))

abbrev questions_of : Option Request → List Question
questions_of none = []
questions_of (some req) = req.questions

-- The request is printed first, and then tested for null.
unfoldable pub server_cb :
    (dec : ℕ → String) → (responded : Bool) → Option Request → Result (List Reply)
unfolding print_dns_req answer_questions
server_cb dec responded req = do
  msg ← print_dns_req dec req
  ok (answer_questions (questions_of req) ++ respond ∷ (if responded then [] else drop ∷ []))

-- What the constructor asks of libevent, and what `register_nameserver` does.
pub data SetupEffect : Type 0 where
  made_base set_log_fn : SetupEffect
  set_option : (option value : String) → SetupEffect
  nameserver_ip_add : String → SetupEffect

unfoldable pub new_server : List SetupEffect
new_server = made_base ∷ set_log_fn ∷ set_option "randomize-case:" "0" ∷ []

-- The function that the constructor sets for the messages of evdns.
unfoldable pub log_fn : (is_warning : Bool) → Level
log_fn is_warning = if is_warning then critical else debug

unfoldable pub localhost_ip : (dec : ℕ → String) → (port : ℕ) → String
localhost_ip dec port = concat ("127.0.0.1" ∷ ":" ∷ dec port ∷ [])

unfoldable pub register_nameserver : (dec : ℕ → String) → (port : ℕ) → List SetupEffect
unfolding localhost_ip
register_nameserver dec port = nameserver_ip_add (localhost_ip dec port) ∷ []

-- What the system answers while the server is set up, and the socket's address that it is bound to.
pub record Setup : Type 0 where
  pub big_endian : Bool
  pub opened : Option ℕ
  pub non_blocking : Bool
  pub bind_done : Bool
  pub port_added : Bool

pub record Server : Type 0 where
  pub udp_sock : Option ℕ
  pub sin_port : Option ℕ
  pub has_port : Bool

-- `initialize`, with `defaults::DNS_PORT`.
unfoldable pub initialize : (dns_port : ℕ) → Setup → Result Server
initialize dns_port k = elim k.opened [
  | none ↦ throw runtime_error
  | some fd ↦ do
    require k.non_blocking runtime_error
    require k.bind_done runtime_error
    require k.port_added runtime_error
    ok (record {
      udp_sock = some fd;
      sin_port = some (host_to_big k.big_endian two dns_port);
      has_port = true;
    })
]

-- The types that the server answers.
abbrev pub is_answered : QuestionType → Bool
is_answered a = true
is_answered aaaa = true
is_answered cname = true
is_answered ptr = false
is_answered soa = false
is_answered (unknown _) = false

abbrev pub answered : List Question → List Question
answered [] = []
answered (q ∷ qs) = if is_answered q.type then q ∷ answered qs else answered qs

answer_step :
    (n : String) (t : QuestionType) (c : QuestionClass) (qs : List Question)
    → answer_questions qs ≡ map main_lookup (answered qs)
    → answer_questions (record { name = n; type = t; dns_question_class = c } ∷ qs)
      ≡ map main_lookup (answered (record { name = n; type = t; dns_question_class = c } ∷ qs))
unfolding answer_questions
answer_step n a c qs e =
    ap (◌∷◌ (main_lookup (record { name = n; type = a; dns_question_class = c }))) e
answer_step n cname c qs e =
    ap (◌∷◌ (main_lookup (record { name = n; type = cname; dns_question_class = c }))) e
answer_step n aaaa c qs e =
    ap (◌∷◌ (main_lookup (record { name = n; type = aaaa; dns_question_class = c }))) e
answer_step n ptr c qs e = e
answer_step n soa c qs e = e
answer_step n (unknown _) c qs e = e

answer_questions_lem : (qs : List Question) → answer_questions qs ≡ map main_lookup (answered qs)
unfolding answer_questions
answer_questions_lem [] = refl
answer_questions_lem (q ∷ qs) =
    answer_step q.name q.type q.dns_question_class qs (answer_questions_lem qs)

-- The server replies once to each question of a type that it answers, in their order, and to no
-- other; then it responds, and drops the request exactly if that fails. A null request, which the
-- loop allows for, never gets so far.
pub server_cb_lem :
    (dec : ℕ → String) (responded : Bool) (req : Request)
    → (server_cb dec responded (some req)
        ≡ ok (
            map main_lookup (answered req.questions)
            ++ respond ∷ (if responded then [] else drop ∷ [])))
      × (server_cb dec responded none ≡ throw null_access)
unfolding server_cb print_dns_req
server_cb_lem dec responded req = (rw (answer_questions_lem req.questions) refl, refl)
