-- ===== src/Hosting/Sessions.antt =====
-- Sessions of remote control of hosting_governance.py, passed on from call to call.
use reus.Prelude.{
  ℕ, ◌+◌, ◌≡◌, refl, ap, ◌∙◌, ◌&&◌, String, Option, none, some, List, [], ◌∷◌, arith, ltb, str_eq,
  if◌then◌else◌, Bool-cases, inl, inr,
}
use reus.Hosting.Purchase.{is_at}
use reus.Hosting.Remote.{
  RemoteControlSession, RemoteControlGrant, request_session, is_open, confirm_locally, revoke,
}

-- What is tried with a session: a confirmation with some key, or a revocation.
pub data Attempt : Type 0 where
  confirming : (key : String) (at : ℕ) → Attempt
  revoking : (at : ℕ) → Attempt

-- The times of the first confirmation that counts, and of the first revocation, read off the attempts.
abbrev pub first_confirmed :
    (digest : String → String) → (hash : String) → (limit : ℕ) → List Attempt → Option ℕ
first_confirmed digest hash limit [] = none
first_confirmed digest hash limit (revoking at ∷ rest) = none
first_confirmed digest hash limit (confirming key at ∷ rest) =
    let later = first_confirmed digest hash limit rest in
    if str_eq hash (digest key) && ltb at limit then some at else later

abbrev pub first_revoked : List Attempt → Option ℕ
first_revoked [] = none
first_revoked (revoking at ∷ rest) = some at
first_revoked (confirming key at ∷ rest) = first_revoked rest

module _ (digest : String → String) where
  abbrev keep : RemoteControlSession → Option RemoteControlSession → RemoteControlSession
  keep s none = s
  keep s (some t) = t

  -- A confirmation that is refused leaves the session as it is.
  abbrev pub attempt : Attempt → RemoteControlSession → RemoteControlSession
  attempt (confirming key at) s = keep s (confirm_locally digest s key at)
  attempt (revoking at) s = revoke s at

  abbrev pub attempt_all : List Attempt → RemoteControlSession → RemoteControlSession
  attempt_all [] s = s
  attempt_all (a ∷ rest) s = attempt_all rest (attempt a s)

  -- What a session comes to that may be confirmed and revoked before.
  abbrev settled :
      RemoteControlSession → (confirmed revoked : Option ℕ) → List Attempt → RemoteControlSession
  settled s (some t) (some r) attempts = record s {
    locally_confirmed_at = some t;
    revoked_at = some r;
  }
  settled s (some t) none attempts = record s {
    locally_confirmed_at = some t;
    revoked_at = first_revoked attempts;
  }
  settled s none (some r) attempts = record s { locally_confirmed_at = none; revoked_at = some r }
  settled s none none attempts = record s {
    locally_confirmed_at = first_confirmed digest s.session_key_hash s.expires_at attempts;
    revoked_at = first_revoked attempts;
  }

  attempt_all-settled :
      (attempts : List Attempt) (s : RemoteControlSession) (confirmed revoked : Option ℕ)
      → attempt_all attempts (record s { locally_confirmed_at = confirmed; revoked_at = revoked })
        ≡ settled s confirmed revoked attempts
  unfolding confirm_locally revoke is_open is_at
  attempt_all-settled [] s (some t) (some r) = refl
  attempt_all-settled [] s (some t) none = refl
  attempt_all-settled [] s none (some r) = refl
  attempt_all-settled [] s none none = refl
  attempt_all-settled (revoking at ∷ rest) s (some t) (some r) =
      attempt_all-settled rest s (some t) (some r)
  attempt_all-settled (revoking at ∷ rest) s (some t) none =
      attempt_all-settled rest s (some t) (some at)
  attempt_all-settled (revoking at ∷ rest) s none (some r) =
      attempt_all-settled rest s none (some r)
  attempt_all-settled (revoking at ∷ rest) s none none = attempt_all-settled rest s none (some at)
  attempt_all-settled (confirming key at ∷ rest) s (some t) (some r) =
      attempt_all-settled rest s (some t) (some r)
  attempt_all-settled (confirming key at ∷ rest) s none (some r) =
      attempt_all-settled rest s none (some r)
  attempt_all-settled (confirming key at ∷ rest) s (some t) none =
      elim (Bool-cases (ltb at s.expires_at)) [
        | inr late ↦ rw late (attempt_all-settled rest s (some t) none)
        | inl in_time ↦ elim (Bool-cases (str_eq s.session_key_hash (digest key))) [
          | inl right ↦ rw (in_time, right) (attempt_all-settled rest s (some t) none)
          | inr wrong ↦ rw (in_time, wrong) (attempt_all-settled rest s (some t) none)
        ]
      ]
  attempt_all-settled (confirming key at ∷ rest) s none none =
      elim (Bool-cases (ltb at s.expires_at)) [
        | inr late ↦ elim (Bool-cases (str_eq s.session_key_hash (digest key))) [
          | inl right ↦ rw (late, right) (attempt_all-settled rest s none none)
          | inr wrong ↦ rw (late, wrong) (attempt_all-settled rest s none none)
        ]
        | inl in_time ↦ elim (Bool-cases (str_eq s.session_key_hash (digest key))) [
          | inl right ↦ rw (in_time, right) (attempt_all-settled rest s (some at) none)
          | inr wrong ↦ rw (in_time, wrong) (attempt_all-settled rest s none none)
        ]
      ]

  -- The grant carries the issued key. Through any attempts to confirm and revoke it, a granted session that is passed on from call to call
  -- comes to this: it is confirmed at the time of the first attempt with a key of the issued key's
  -- digest, before its time is up and before any revocation, if there is one, and at no other time; it
  -- is revoked at the time of the first revocation; and nothing else of it changes.
  pub attempt_all-request_session :
      (id key mode device_label : String) (ttl_seconds now : ℕ) (g : RemoteControlGrant)
      (attempts : List Attempt)
      → request_session digest id key mode device_label ttl_seconds now ≡ some g
      → (g.local_confirmation_key ≡ key)
        × (attempt_all attempts g.session ≡ record {
          session_id = id;
          mode = mode;
          device_label = device_label;
          expires_at = now + ttl_seconds;
          session_key_hash = digest key;
          locally_confirmed_at = first_confirmed digest (digest key) (now + ttl_seconds) attempts;
          revoked_at = first_revoked attempts;
        })
  unfolding request_session
  attempt_all-request_session id key mode device_label ttl_seconds now g attempts h =
      let granted : RemoteControlSession = record {
        session_id = id;
        mode = mode;
        device_label = device_label;
        expires_at = now + ttl_seconds;
        session_key_hash = digest key;
        locally_confirmed_at = none;
        revoked_at = none;
      } in
      let issued : g.session ≡ granted = ground arith in
      (
        ground arith,
        ap (attempt_all attempts) issued ∙ attempt_all-settled attempts granted none none,
      )
