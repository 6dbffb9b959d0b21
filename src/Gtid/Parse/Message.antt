-- ===== src/Gtid/Parse/Message.antt =====
-- The texts of the errors of internal/replication/gtidset.go.
use mha_go.Base.{Text, codes, ◌++◌, print_uint}
use mha_go.Gtid.Parse.{
  IntervalError, empty_interval, invalid_interval, invalid_start, invalid_end, end_before_start,
  ParseError, invalid_token, empty_sid, invalid_interval_in,
}

unfoldable pub interval_error_text : IntervalError → Text
unfolding print_uint
interval_error_text empty_interval = codes "empty interval"
interval_error_text (invalid_interval raw) = codes "invalid interval \"" ++ (raw ++ codes "\"")
interval_error_text (invalid_start raw) = codes "invalid interval start \"" ++ (raw ++ codes "\"")
interval_error_text (invalid_end raw) = codes "invalid interval end \"" ++ (raw ++ codes "\"")
interval_error_text (end_before_start last first) =
    codes "interval end "
    ++ (print_uint last ++ (codes " is smaller than start " ++ print_uint first))

unfoldable pub parse_error_text : ParseError → Text
unfolding interval_error_text
parse_error_text (invalid_token item) = codes "invalid GTID set token \"" ++ (item ++ codes "\"")
parse_error_text (empty_sid item) =
    codes "invalid GTID set token \"" ++ (item ++ codes "\": empty SID")
parse_error_text (invalid_interval_in item e) =
    codes "invalid GTID set token \"" ++ (item ++ (codes "\": " ++ interval_error_text e))
