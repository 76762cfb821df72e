-- ===== src/Auth/Session.antt =====
-- DjangoAuthPlugin of app/mqtt/auth.py: a client's authentication over TLS and by password, and the
-- access hooks that the broker calls. Waiting for the TLS handshake is modelled by numbering the
-- queries of the peer certificate: the session holds the answer to each. Seconds are milliseconds.
pub mod Identity
use my_tracks.Base.{
  ℕ, zero, suc, ◌+◌, ◌*◌, min, String, Option, none, some, List, [], ◌∷◌, Bool, true, false, not,
  leb, if◌then◌else◌,
}
use my_tracks.Auth.{
  User, is_set, authenticate_user, authenticate_by_cert, Action, publish, subscribe,
  check_topic_access,
}

-- What `ssl_object.getpeercert(binary_form=True)` and the parser of the certificate give: a
-- ValueError before the handshake is done, None, bytes that do not parse, or the common names.
pub data PeerCert : Type 0 where
  handshaking absent unreadable : PeerCert
  names : List String → PeerCert

abbrev first_name : List String → Option String
first_name [] = none
first_name (cn ∷ _) = some cn

unfoldable pub extract_cert_cn : PeerCert → Option String
extract_cert_cn handshaking = none
extract_cert_cn absent = none
extract_cert_cn unreadable = none
extract_cert_cn (names cns) = first_name cns

-- `ssl_object` is the answer to each query, in order; `close_called` records that the writer was
-- asked to close.
pub record Session : Type 0 where
  pub ssl_object : Option (ℕ → PeerCert)
  pub username : Option String
  pub password : Option String
  pub writer : Bool
  pub close_called : Bool

unfoldable pub close_session_transport : Session → Session
close_session_transport session =
    if session.writer then record session { close_called = true } else session

abbrev pub max_wait : ℕ
max_wait = 2000

-- The `while elapsed_s <= max_wait_s` loop, from query number `query`.
unfoldable pub cert_cn_loop : ℕ → (ℕ → PeerCert) → ℕ → ℕ → ℕ → Option String
unfolding extract_cert_cn
cert_cn_loop zero peer query elapsed sleep = none
cert_cn_loop (suc fuel) peer query elapsed sleep =
    let again = cert_cn_loop fuel peer (query + 1) (elapsed + sleep) (min (sleep * 2) 500) in
    if leb elapsed max_wait
    then elim (extract_cert_cn (peer query)) [ none ↦ again | some cn ↦ some cn ]
    else none

-- Eight rounds are enough: the last finds that `max_wait` has passed.
abbrev pub cert_cn_fuel : ℕ
cert_cn_fuel = 8

unfoldable pub wait_for_cn : (ℕ → PeerCert) → Option String
wait_for_cn peer = cert_cn_loop cert_cn_fuel peer 0 0 50

abbrev finish_tls : Bool → String → Session → Bool × Session
finish_tls true cn session = (
  true,
  (if not (is_set session.username) then record session { username = some cn } else session),
)
finish_tls false cn session = (false, close_session_transport session)

unfoldable pub authenticate_tls : List User → (ℕ → PeerCert) → Session → Bool × Session
unfolding close_session_transport
authenticate_tls users peer session = elim (wait_for_cn peer) [
  | none ↦ (false, close_session_transport session)
  | some cn ↦ finish_tls (authenticate_by_cert users cn session.username) cn session
]

-- `none` where the username or the password is missing
abbrev pub both : Option String → Option String → Option (String × String)
both (some a) (some b) = some (a, b)
both _ _ = none

module _ (check_password : User → String → Bool) (users : List User) where
  unfoldable pub authenticate_password : Session → Bool × Session
  authenticate_password session = elim (both session.username session.password) [
    | none ↦ (false, session)
    | some (username, password) ↦
        (authenticate_user check_password users username password, session)
  ]

  unfoldable pub authenticate : Session → Bool × Session
  unfolding authenticate_password authenticate_tls
  authenticate session = elim session.ssl_object [
    | none ↦ authenticate_password session
    | some peer ↦ authenticate_tls users peer session
  ]

-- The broker asks with no session, or with a session that has no username, of its own messages and
-- of anonymous clients.
abbrev pub session_username : Option Session → Option String
session_username none = none
session_username (some session) = session.username

abbrev access_hook : List User → Option Session → String → Action → Bool
access_hook users session topic action = elim (session_username session) [
  | none ↦ true
  | some username ↦ check_topic_access users username topic action
]

unfoldable pub on_broker_client_subscribed : List User → Option Session → String → Bool
on_broker_client_subscribed users session topic = access_hook users session topic subscribe

unfoldable pub on_broker_message_received : List User → Option Session → String → Bool
on_broker_message_received users session topic = access_hook users session topic publish
