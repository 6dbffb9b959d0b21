-- ===== src/Gtid/Parse/Blank.antt =====
-- `ParseGTIDSet` of internal/replication/gtidset.go on blank texts, and on texts with spaces around.
use mha_go.Base.{
  ℕ, true, false, Text, [], is_blank, trim_space, ok, ◌≡◌, refl, sym, ap, ◌∙◌, Bool-cases, inl, inr,
}
use mha_go.Base.Errors.{ok-injective}
use mha_go.Base.Strings.Trim.{trim_space-trim_space}
use mha_go.Gtid.Sets.{GtidSet}
use mha_go.Gtid.Sets.Laws.{member, covers_nil}
use mha_go.Gtid.Parse.{parse}

parse_blank : (raw : Text) {s : GtidSet} → is_blank raw ≡ true → parse raw ≡ ok s → s ≡ []
unfolding parse is_blank
parse_blank raw e h = let run : parse raw ≡ ok [] = rw e refl in sym (ok-injective (sym run ∙ h))

pub member_blank :
    (raw sid : Text) (n : ℕ) {s : GtidSet}
    → parse raw ≡ ok s
    → member s sid n ≡ true
    → is_blank raw ≡ false
unfolding member
member_blank raw sid n {s} h m = elim (Bool-cases (is_blank raw)) [
  | inl e ↦
      let none : member s sid n ≡ false =
        ap (λ x. member x sid n) (parse_blank raw e h) ∙ covers_nil n in
      cc
  | inr e ↦ e
]

pub parse-trim_space : (raw : Text) → parse (trim_space raw) ≡ parse raw
unfolding parse
parse-trim_space raw = rw (trim_space-trim_space raw) refl
