-- ===== src/Failure.antt =====
-- Go's error values, as the operator reads them: by their message and by the errors they wrap.
-- The sentinels are those of internal/uptimerobot/client.go and retry.go, of the controllers, and
-- the two reasons of Kubernetes API errors that the controllers ask for.
use uptime_robot_operator.Prelude.{
  String, Bool, true, false, ◌||◌, Option, none, some, List, [], ◌∷◌,
}
use uptime_robot_operator.Text.{contains, concat}

pub data Sentinel : Type 0 where
  err_status err_response err_monitor_not_found err_contact_not_found : Sentinel
  err_integration_not_found err_not_found err_max_retries_exceeded : Sentinel
  err_secret_missing_key err_key_not_found err_empty_key : Sentinel
  err_no_default_account err_multiple_default_account : Sentinel
  api_not_found api_conflict : Sentinel

pub Sentinel-discrete : Discrete Sentinel
Sentinel-discrete = hlevel

-- an error and the sentinels in its chain of wrapped errors
pub record Failure : Type 0 where
  pub message : String
  pub chain : List Sentinel

-- the result of a call that returns a value and an error
pub data Result {ℓ} (A : Type ℓ) : Type ℓ where
  ok : A → Result A
  err : Failure → Result A

same : Sentinel → Sentinel → Bool
same err_status err_status = true
same err_response err_response = true
same err_monitor_not_found err_monitor_not_found = true
same err_contact_not_found err_contact_not_found = true
same err_integration_not_found err_integration_not_found = true
same err_not_found err_not_found = true
same err_max_retries_exceeded err_max_retries_exceeded = true
same err_secret_missing_key err_secret_missing_key = true
same err_key_not_found err_key_not_found = true
same err_empty_key err_empty_key = true
same err_no_default_account err_no_default_account = true
same err_multiple_default_account err_multiple_default_account = true
same api_not_found api_not_found = true
same api_conflict api_conflict = true
same _ _ = false

in_chain : Sentinel → List Sentinel → Bool
in_chain s [] = false
in_chain s (t ∷ ts) = same s t || in_chain s ts

-- errors.Is(e, s)
unfoldable pub is : Failure → Sentinel → Bool
unfolding in_chain same
is e s = in_chain s e.chain

abbrev pub failure : String → List Sentinel → Failure
failure m c = record { message = m; chain = c }

-- fmt.Errorf with %w: the text goes in front, and the chain is kept.
abbrev pub wrap : String → Failure → Failure
wrap text e = record { message = concat (text ∷ e.message ∷ []); chain = e.chain }

-- IsNotFound of client.go
unfoldable pub is_not_found : Option Failure → Bool
unfolding is contains
is_not_found none = false
is_not_found (some e) =
    contains e.message "404"
    || is e err_not_found
    || is e err_monitor_not_found
    || is e err_contact_not_found
    || is e err_integration_not_found
