-- ===== src/Requests/Effects.antt =====
-- What a location request reads and writes: the configuration row in the database, the clock, the
-- broker and the wire; and actions over it, which return or raise a LocationRequestError. The clock is
-- the list of the instants that its successive readings give.
use my_tracks.Base.{ℕ, ◌+◌, String, Option, none, Bool}
use my_tracks.Commands.{Wire}
use my_tracks.Requests.Settings.{Config, RateLimits}

-- get_mqtt_broker()
pub record Broker : Type 0 where
  pub is_running : Bool
  pub amqtt_broker : Option (ℕ → Bool)

pub record World : Type 0 where
  pub row : Config
  pub clock : ℕ → ℕ
  pub readings : ℕ
  pub broker : Option Broker
  pub wire : Wire

-- The messages, with what they interpolate.
pub data Detail : Type 0 where
  invalid_reason unknown_user no_owned_devices unknown_device : String → Detail
  user_cooldown_active device_cooldown_active batch_in_progress : Detail
  broker_unavailable publish_failed missing_device_id missing_pending_key : Detail

pub record RequestError : Type 0 where
  pub detail : Detail
  pub status_code : ℕ
  pub cooldown_until : Option ℕ
  pub rate_limits : Option RateLimits

pub data Outcome (A : Type 0) : Type 0 where
  ok : A → Outcome A
  raised : RequestError → Outcome A

abbrev pub Request : Type 0 → Type 0
Request A = World → Outcome A × World

abbrev pub and_then : {A B : Type 0} → (A → Request B) → Outcome A × World → Outcome B × World
and_then k (ok a, w) = k a w
and_then k (raised e, w) = (raised e, w)

infixl 5 ◌>>=◌ ◌>>◌
abbrev pub ◌>>=◌ : {A B : Type 0} → Request A → (A → Request B) → Request B
◌>>=◌ m k w = and_then k (m w)

abbrev pub ◌>>◌ : {B : Type 0} → Request (Unit {0}) → Request B → Request B
m >> k = m >>= λ _. k

abbrev pub return : {A : Type 0} → A → Request A
return a w = (ok a, w)

abbrev pub fail : {A : Type 0} → RequestError → Request A
fail e w = (raised e, w)

-- `except LocationRequestError: handler(); raise`, where the handler only writes the row.
abbrev pub restore : {A : Type 0} → (Config → Config) → Outcome A × World → Outcome A × World
restore handler (ok a, w) = (ok a, w)
restore handler (raised e, w) = (raised e, record w { row = handler w.row })

abbrev pub except : {A : Type 0} → Request A → (Config → Config) → Request A
except m handler w = restore handler (m w)

-- timezone.now()
abbrev pub now : Request ℕ
now w = (ok (w.clock w.readings), record w { readings = w.readings + 1 })

-- DomestiBotConfig.objects.select_for_update().get(pk=config.pk)
abbrev pub locked_config : Request Config
locked_config w = (ok w.row, w)

abbrev pub save_row : Config → Request (Unit {0})
save_row config w = (ok tt, record w { row = config })

abbrev pub error : Detail → ℕ → RequestError
error detail status = record {
  detail = detail;
  status_code = status;
  cooldown_until = none;
  rate_limits = none;
}
