-- ===== src/Tests/Access.antt =====
-- Access to topics and authentication, for two accounts and a certificate that is readable at the
-- third query.
use my_tracks.Base.{
  ℕ, String, none, some, List, [], ◌∷◌, Bool, true, false, not, ◌≡◌, refl, arith, leb,
  if◌then◌else◌, ◌==◌, compared_texts, ◌||◌, ◌&&◌, eq_iff,
}
use my_tracks.Text.{span_slash}
use my_tracks.Topic.{TopicInfo}
use my_tracks.Topic.Parsing.{topic_text}
use my_tracks.Auth.{
  User, get_django_user, publish, subscribe, is_subscribe, is_super, check_topic_access,
  authenticate_by_cert, authenticate_user,
}
use my_tracks.Auth.Pattern.{TopicMatch, match_topic, dot_star_end}
use my_tracks.Auth.Agrees.{Agrees, match_topic-Agrees}
use my_tracks.Auth.Access.{
  Grant, check_topic_access-Grant, IsWellFormed, is_cmd, check_topic_access_decides,
}
use my_tracks.Auth.Session.{
  PeerCert, handshaking, names, Session, cert_cn_loop, wait_for_cn, authenticate, extract_cert_cn,
}
use my_tracks.Auth.Session.Identity.{
  first_cn, cert_cn_loop_total, IsIdentified, is_tls, authenticate-IsIdentified, refused_session,
}

abbrev users : List User
users =
    record { username = "alice"; is_active = true; is_superuser = false }
    ∷ record { username = "root"; is_active = true; is_superuser = true }
    ∷ []

access_tests :
    (check_topic_access users "alice" "owntracks/alice/phone" subscribe ≡ true)
    × (check_topic_access users "alice" "owntracks/bob/phone" publish ≡ false)
    × (check_topic_access users "alice" "owntracks/bob/phone/cmd" publish ≡ true)
    × (check_topic_access users "alice" "owntracks/bob/phone/cmd" subscribe ≡ false)
    × (check_topic_access users "root" "owntracks/bob/phone" subscribe ≡ true)
    × (check_topic_access users "alice" "$SYS/uptime" subscribe ≡ true)
    × (check_topic_access users "root" "$SYS/uptime" publish ≡ false)
    × (check_topic_access users "root" "homeassistant/light" publish ≡ false)
unfolding check_topic_access match_topic span_slash dot_star_end get_django_user
access_tests = (refl, refl, refl, refl, refl, refl, refl, refl)

abbrev bobs_cmd : TopicMatch
bobs_cmd = record { user = "bob"; device = "phone"; subtopic = some "/cmd" }

match_topic-Agrees_example : Agrees "owntracks/bob/phone/cmd\n" bobs_cmd
unfolding match_topic span_slash dot_star_end
match_topic-Agrees_example = match_topic-Agrees "owntracks/bob/phone/cmd\n" bobs_cmd refl

check_topic_access-Grant_example : Grant users "alice" "owntracks/bob/phone/cmd" publish
check_topic_access-Grant_example =
    check_topic_access-Grant users "alice" "owntracks/bob/phone/cmd" publish access_tests.2

abbrev bobs_phone : TopicInfo
bobs_phone = record { user = "bob"; device = "phone"; subtopic = none }

bobs_phone-IsWellFormed : IsWellFormed bobs_phone
bobs_phone-IsWellFormed = record {
  user = omega arith;
  device = omega arith;
  user_nonempty = ground (arith, eq_iff "bob" "");
  device_nonempty = ground (arith, eq_iff "phone" "");
  subtopic = tt;
}

check_topic_access_decides_example :
    check_topic_access users "alice" (topic_text bobs_phone) subscribe ≡ (
      bobs_phone.user == "alice"
      || not (is_subscribe subscribe) && is_cmd bobs_phone.subtopic
      || is_super (get_django_user users "alice"))
check_topic_access_decides_example =
    check_topic_access_decides users "alice" bobs_phone subscribe bobs_phone-IsWellFormed

-- The handshake is done at the third query.
abbrev late_cert : ℕ → PeerCert
late_cert query = if leb query 1 then handshaking else names ("alice" ∷ [])

abbrev tls_session : Session
tls_session = record {
  ssl_object = some late_cert;
  username = none;
  password = none;
  writer = true;
  close_called = false;
}

abbrev no_password : User → String → Bool
no_password user password = false

session_runs : Unit {0}
unfolding authenticate wait_for_cn cert_cn_loop extract_cert_cn authenticate_by_cert get_django_user
    authenticate_user
session_runs = tt

tls_session_in :
    authenticate no_password users tls_session
    ≡ (true, record tls_session { username = some "alice" })
unfolding session_runs
tls_session_in = refl

-- No certificate is ever presented.
abbrev silent_session : Session
silent_session = record tls_session { ssl_object = some (λ query. handshaking) }

silent_session_out :
    authenticate no_password users silent_session
    ≡ (false, record silent_session { close_called = true })
unfolding session_runs
silent_session_out = refl

cert_cn_loop_total_example :
    (cert_cn_loop 9 late_cert 0 0 50 ≡ first_cn 7 late_cert 0)
    × (wait_for_cn late_cert ≡ first_cn 7 late_cert 0)
cert_cn_loop_total_example = cert_cn_loop_total 9 late_cert (omega arith)

authenticate-IsIdentified_example :
    IsIdentified no_password users tls_session (record tls_session { username = some "alice" })
authenticate-IsIdentified_example =
    authenticate-IsIdentified no_password users tls_session _ tls_session_in

refused_session_example : record silent_session { close_called = true } ≡ record silent_session {
  close_called =
      is_tls silent_session.ssl_object && silent_session.writer || silent_session.close_called;
}
refused_session_example = refused_session no_password users silent_session _ silent_session_out
