-- ===== src/Tests/Events.antt =====
-- The cleaning of a small record of the event log.
use ctyun_zos.Prelude.{◌≡◌, refl, true, false, none, some, [], ◌∷◌, codes}
use ctyun_zos.EventLog.{
  Value, scalar, text, dict, items, no_entries, entry, no_values, value, is_sensitive, redacted,
  clean_value, clean, LoggerState, emit_log,
}
use ctyun_zos.EventLog.Redaction.{IsRedacted, clean-IsRedacted}

-- {"path": [{"accessKey": 7}], "note": "a\n"}
abbrev details : Value
details = dict (
    entry (codes "path")
      (items (value (dict (entry (codes "accessKey") (scalar 7) no_entries)) no_values))
      (entry (codes "note") (text (97 ∷ 10 ∷ [])) no_entries))

abbrev cleaned_details : Value
cleaned_details = dict (
    entry (codes "path")
      (items (value (dict (entry (codes "accessKey") redacted no_entries)) no_values))
      (entry (codes "note") (text (codes "a")) no_entries))

details_are_cleaned : clean [] details ≡ cleaned_details
unfolding clean clean_value is_sensitive
details_are_cleaned = refl

access_key_is_sensitive : is_sensitive (codes "X-ACCESS_KEY-ID") ≡ true
unfolding is_sensitive
access_key_is_sensitive = refl

two_letters_between : is_sensitive (codes "access__key") ≡ false
unfolding is_sensitive
two_letters_between = refl

abbrev fresh_logger : LoggerState
fresh_logger = record { degraded = false; last_failure_at = none; last_success_at = none }

failed_write_degrades :
    emit_log 30 false 9 fresh_logger
    ≡ record fresh_logger { degraded = true; last_failure_at = some 9 }
unfolding emit_log
failed_write_degrades = refl

clean-IsRedacted_example : IsRedacted (clean [] details)
clean-IsRedacted_example = clean-IsRedacted [] details
