-- ===== src/Hosting/Remote.antt =====
-- `RemoteControlGate` of infrastructure/hosting_governance.py. `digest` is SHA-256, and `key` what
-- `secrets.token_urlsafe` returns.
use reus.Prelude.{
  ℕ, ◌+◌, Bool, not, ◌&&◌, ◌||◌, String, Option, none, some, ltb, ◌==◌, str_eq, if◌then◌else◌,
}
use reus.Hosting.Purchase.{is_at}

pub record RemoteControlSession : Type 0 where
  pub session_id : String
  pub mode : String
  pub device_label : String
  pub expires_at : ℕ
  pub session_key_hash : String
  pub locally_confirmed_at : Option ℕ
  pub revoked_at : Option ℕ

pub record RemoteControlGrant : Type 0 where
  pub session : RemoteControlSession
  pub local_confirmation_key : String

unfoldable pub is_mode : String → Bool
is_mode s = str_eq s "view" || str_eq s "control"

unfoldable pub request_session :
    (digest : String → String)
    → (id key : String) → (mode device_label : String) → (ttl_seconds now : ℕ)
    → Option RemoteControlGrant
request_session digest id key mode device_label ttl_seconds now =
    if not (is_mode mode) || str_eq device_label "" || ttl_seconds == 0
    then none
    else some (record {
      session = record {
        session_id = id;
        mode = mode;
        device_label = device_label;
        expires_at = now + ttl_seconds;
        session_key_hash = digest key;
        locally_confirmed_at = none;
        revoked_at = none;
      };
      local_confirmation_key = key;
    })

-- `_assert_open`
unfoldable pub is_open : RemoteControlSession → (now : ℕ) → Bool
is_open s now = not (is_at s.revoked_at) && ltb now s.expires_at

unfoldable pub confirm_locally :
    (digest : String → String)
    → RemoteControlSession
    → (key : String) → (now : ℕ) → Option RemoteControlSession
confirm_locally digest s key now =
    if not (is_open s now)
    then none
    else if not (str_eq s.session_key_hash (digest key))
    then none
    else if is_at s.locally_confirmed_at
    then none
    else some (record s { locally_confirmed_at = some now })

unfoldable pub revoke : RemoteControlSession → (now : ℕ) → RemoteControlSession
revoke s now = if is_at s.revoked_at then s else record s { revoked_at = some now }
