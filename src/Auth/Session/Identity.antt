-- ===== src/Auth/Session/Identity.antt =====
-- What a successful authentication establishes, and what a failed one does to the session.
use native.Mathlib.Numerals.{towards_suc}
use my_tracks.Base.{
  ◌||◌, ◌&&◌, ◌≤◌, ◌-◌, ℕ, zero, suc, ◌+◌, String, Option, none, some, List, [], ◌∷◌, Bool, true,
  false, compared_texts, ◌≡◌, arith, sym, ap, ◌∙◌, Bool-cases, Option-cases, inl, inr, eq_iff, ◌&&◌,
}
use my_tracks.Auth.{User, get_django_user, is_set, differs, authenticate_user, authenticate_by_cert}
use my_tracks.Auth.Session.{
  PeerCert, extract_cert_cn, Session, cert_cn_loop, cert_cn_fuel, wait_for_cn, authenticate_tls,
  authenticate_password, authenticate, both,
}

-- The first readable common name among `n` queries from `query` on.
abbrev pub first_cn : ℕ → (ℕ → PeerCert) → ℕ → Option String
first_cn zero peer query = none
first_cn (suc n) peer query = elim (extract_cert_cn (peer query)) [
  | none ↦ first_cn n peer (query + 1)
  | some cn ↦ some cn
]

seven_queries :
    (extra : ℕ) (peer : ℕ → PeerCert) → cert_cn_loop (extra + 8) peer 0 0 50 ≡ first_cn 7 peer 0
unfolding cert_cn_loop
seven_queries extra peer = simp towards_suc

-- With the fuel of the model, or with any more, the wait for the TLS handshake ends after seven
-- queries of the certificate, and gives the first common name that one of them could read.
pub cert_cn_loop_total :
    (fuel : ℕ) (peer : ℕ → PeerCert)
    → cert_cn_fuel ≤ fuel
    → (cert_cn_loop fuel peer 0 0 50 ≡ first_cn 7 peer 0) × (wait_for_cn peer ≡ first_cn 7 peer 0)
unfolding wait_for_cn
cert_cn_loop_total fuel peer h =
    let enough : fuel ≡ (fuel - 8) + 8 = omega arith in
    (rw enough (seven_queries (fuel - 8) peer), seven_queries 0 peer)

username_of_found :
    (users : List User) (name : String) (user : User)
    → get_django_user users name ≡ some user
    → user.username ≡ name
unfolding get_django_user
username_of_found [] name user e = cc
username_of_found (u ∷ us) name user e =
    ground (arith, eq_iff u.username name, username_of_found us name user)

-- An active account of that name.
pub record IsActive (users : List User) (name : String) : Type 0 where
  pub account : User
  pub found : get_django_user users name ≡ some account
  pub named : account.username ≡ name
  pub active : account.is_active ≡ true

same_name :
    (username : Option String) (cn : String)
    → (is_set username && differs username cn) ≡ false
    → is_set username ≡ true
    → username ≡ some cn
same_name none cn e h = cc
same_name (some s) cn e h = ap some ((eq_iff s cn).0 (ground arith))

authenticate_by_cert_sound :
    (users : List User) (cn : String) (username : Option String)
    → authenticate_by_cert users cn username ≡ true
    → IsActive users cn × (is_set username ≡ true → username ≡ some cn)
unfolding authenticate_by_cert
authenticate_by_cert_sound users cn username e = elim (Option-cases (get_django_user users cn)) [
  | inl missing ↦ absurd (ground arith)
  | inr (user, found) ↦ (
    record {
      account = user;
      found = found;
      named = username_of_found users cn user found;
      active = ground arith;
    },
    same_name username cn (ground arith),
  )
]

both-eq-some :
    (a b : Option String) {x y : String} → both a b ≡ some (x, y) → (a ≡ some x) × (b ≡ some y)
both-eq-some none b e = cc
both-eq-some (some a) none e = cc
both-eq-some (some a) (some b) e = ground arith

abbrev pub is_tls : Option (ℕ → PeerCert) → Bool
is_tls none = false
is_tls (some peer) = true

module _ (check_password : User → String → Bool) (users : List User) where
  authenticate_user_sound :
      (username password : String)
      → authenticate_user check_password users username password ≡ true
      → (a : IsActive users username) × (check_password a.account password ≡ true)
  unfolding authenticate_user
  authenticate_user_sound username password e =
      elim (Option-cases (get_django_user users username)) [
        | inl missing ↦ absurd (ground arith)
        | inr (user, found) ↦ (
          record {
            account = user;
            found = found;
            named = username_of_found users username user found;
            active = ground arith;
          },
          ground arith,
        )
      ]

  -- What a session that was let in carries.
  pub data Proof (session : Session) (name : String) : Type 0 where
    by_cert :
        (peer : ℕ → PeerCert)
        → session.ssl_object ≡ some peer
        → first_cn 7 peer 0 ≡ some name
        → Proof session name
    by_password :
        (account : User) (password : String)
        → session.ssl_object ≡ none
        → session.username ≡ some name
        → session.password ≡ some password
        → get_django_user users name ≡ some account
        → check_password account password ≡ true
        → Proof session name

  pub record IsIdentified (session after : Session) : Type 0 where
    pub name : String
    pub username : after.username ≡ some name
    pub active : IsActive users name
    pub proof : Proof session name

  tls-IsIdentified :
      (peer : ℕ → PeerCert) (session after : Session)
      → session.ssl_object ≡ some peer
      → authenticate_tls users peer session ≡ (true, after)
      → IsIdentified session after
  unfolding authenticate_tls
  tls-IsIdentified peer session after is_tls e = elim (Option-cases (wait_for_cn peer)) [
    | inl never ↦ absurd (ground arith)
    | inr (cn, read) ↦ elim (Bool-cases (authenticate_by_cert users cn session.username)) [
      | inr refused ↦ absurd (ground arith)
      | inl accepted ↦
          let (active, same) = authenticate_by_cert_sound users cn session.username accepted in
          record {
            name = cn;
            username = ground (arith, same);
            active = active;
            proof = by_cert peer is_tls (sym (cert_cn_loop_total 8 peer (omega arith)).1 ∙ read);
          }
    ]
  ]

  password-IsIdentified :
      (session after : Session)
      → session.ssl_object ≡ none
      → authenticate_password check_password users session ≡ (true, after)
      → IsIdentified session after
  unfolding authenticate_password
  password-IsIdentified session after no_tls e =
      elim (Option-cases (both session.username session.password)) [
        | inl missing ↦ absurd (ground arith)
        | inr ((name, password), sent) ↦
            let (is_name, is_password) = both-eq-some session.username session.password sent in
            let (active, accepted) = authenticate_user_sound name password (ground arith) in
            record {
              name = name;
              username = ground arith;
              active = active;
              proof =
                  by_password active.account password no_tls is_name is_password active.found
                    accepted;
            }
      ]

  -- A client that is let in has a username in its session from then on, that of an active account: the
  -- common name of its certificate, as one of the first seven queries read it, or, without TLS, the
  -- name that it sent with a password that the check accepts.
  pub authenticate-IsIdentified :
      (session after : Session)
      → authenticate check_password users session ≡ (true, after)
      → IsIdentified session after
  unfolding authenticate
  authenticate-IsIdentified session after e = elim (Option-cases session.ssl_object) [
    | inl no_tls ↦ password-IsIdentified session after no_tls (ground arith)
    | inr (peer, is_tls) ↦ tls-IsIdentified peer session after is_tls (ground arith)
  ]

  -- A client that is turned away keeps its session as it was, except that over TLS, if the session has
  -- a writer, the writer is asked to close.
  pub refused_session :
      (session after : Session)
      → authenticate check_password users session ≡ (false, after)
      → after ≡ record session {
        close_called = is_tls session.ssl_object && session.writer || session.close_called;
      }
  unfolding authenticate
  refused_session session after e = elim (Option-cases session.ssl_object) [
    | inl no_tls ↦ ground arith
    | inr (peer, is_tls) ↦ ground arith
  ]
