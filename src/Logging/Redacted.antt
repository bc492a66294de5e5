-- ===== src/Logging/Redacted.antt =====
-- What of an event reaches the log.
use multi_platform_crypto_tr.Base.{
  ◌≡◌, String, Option, none, some, [], ◌∷◌, arith, eq_iff, ap, if◌then◌else◌,
}
use multi_platform_crypto_tr.Base.Dict.{Dict, lookup}
use multi_platform_crypto_tr.Logging.{sensitive_keys, redact}
use multi_platform_crypto_tr.Market.{is_in}
use multi_platform_crypto_tr.Security.Words.{Words}

abbrev replaced : {V : Type 0} → V → Option V → Option V
replaced redacted none = none
replaced redacted (some v) = some redacted

-- In the event that is logged, a key whose lower case is sensitive has the placeholder for its value,
-- every other key has its value, and no key is added.
pub redact_exact :
    {V : Type 0}
    → (w : Words) (redacted : V) (event : Dict V) (key : String)
    → lookup key (redact w redacted event) ≡ (
        if is_in (w.lower key) sensitive_keys
        then replaced redacted (lookup key event)
        else lookup key event)
unfolding redact lookup
redact_exact w redacted [] key = ground arith
redact_exact w redacted ((k, v) ∷ event) key = ground (
  arith,
  eq_iff k key,
  redact_exact w redacted event key,
  λ (e : k ≡ key). ap (λ x. is_in (w.lower x) sensitive_keys) e,
)
