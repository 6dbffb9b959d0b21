-- ===== src/WriterEndpoint/Address.antt =====
-- `AddrHostPort` of internal/writerendpoint/switch.go takes apart what `NodeSpec.Address` of
-- internal/domain/types.go puts together.
use mha_go.Base.{
  ℕ, zero, suc, ◌+◌, ◌<◌, ◌≤◌, ◌/◌, ◌%◌, ◌^◌, pos, true, false, ltb, ◌==◌, Text, [], ◌∷◌, ◌++◌,
  none, some, is_nil, All, ◌≡◌, refl, ap, sym, ◌∙◌, arith, inl, inr, Bool-cases, digits, print_uint,
  print_int, parse_uint, parse_int, cut_last, if◌then◌else◌,
}
use mha_go.Base.Decimal.{positive, below}
use mha_go.Base.Decimal.RoundTrip.{
  parse_uint-print_uint, is_nil-print_uint, digits-last, digits-more,
}
use mha_go.Domain.Spec.{NodeSpec}
use mha_go.WriterEndpoint.{address, addr_host_port, host_port_of, port_or_zero}

-- A digit, as far as the separators and signs are concerned.
abbrev IsDigit : ℕ → Type 0
IsDigit c = (48 ≤ c) × (c ≤ 57)

digits-IsDigit : (fuel n : ℕ) (out : Text) → All IsDigit out → All IsDigit (digits fuel n out)
digits-IsDigit zero n out h = unfold digits in h
digits-IsDigit (suc fuel) n out h = elim (Bool-cases (ltb n 10)) [
  | inl e ↦ rw (digits-last fuel n out e) (ground arith, h)
  | inr e ↦
      rw (digits-more fuel n out e)
        (digits-IsDigit fuel (n / 10) ((48 + n % 10) ∷ out) (omega arith, h))
]

print_uint-IsDigit : (n : ℕ) → All IsDigit (print_uint n)
unfolding print_uint
print_uint-IsDigit n = digits-IsDigit 20 n [] tt

cut_last-IsDigit : (s : Text) → All IsDigit s → cut_last 58 s ≡ none
unfolding cut_last
cut_last-IsDigit [] h = refl
cut_last-IsDigit (c ∷ s) h =
    let other : (c == 58) ≡ false = ground arith in rw (cut_last-IsDigit s h.1) (rw other refl)

cut_last-append :
    (host port : Text)
    → cut_last 58 port ≡ none
    → cut_last 58 (host ++ (58 ∷ port)) ≡ some (host, port)
unfolding cut_last
cut_last-append [] port h = rw h refl
cut_last-append (c ∷ host) port h = rw (cut_last-append host port h) refl

parse_int-IsDigit :
    (s : Text)
    → is_nil s ≡ false
    → All IsDigit s
    → parse_int s ≡ positive (below (2 ^ 63) (parse_uint s))
unfolding parse_int
parse_int-IsDigit [] e h = cc
parse_int-IsDigit (c ∷ s) e h =
    let minus : (c == 45) ≡ false = ground arith in
    let plus : (c == 43) ≡ false = ground arith in rw minus (rw plus refl)

parse_int-print_uint : (p : ℕ) → p < 2 ^ 63 → parse_int (print_uint p) ≡ some (pos p)
parse_int-print_uint p h =
    let fits : ltb p (2 ^ 63) ≡ true = ground arith in
    parse_int-IsDigit (print_uint p) (is_nil-print_uint p) (print_uint-IsDigit p)
    ∙ (ap (λ o. positive (below (2 ^ 63) o)) (parse_uint-print_uint p (omega arith))
        ∙ ap (λ b. positive (if b then some p else none)) fits)

-- The host and the port of a node's address are the node's, whatever the host is, where the port is
-- a number of type int that is not negative.
pub addr_host_port-address :
    (n : NodeSpec) (p : ℕ)
    → n.port ≡ pos p
    → p < 2 ^ 63
    → addr_host_port (address n) ≡ (n.host, n.port)
unfolding addr_host_port address print_int
addr_host_port-address n p e h =
    ap
      (λ q.
        host_port_of (n.host ++ (58 ∷ print_int q)) (cut_last 58 (n.host ++ (58 ∷ print_int q))))
      e
    ∙ (ap (host_port_of (n.host ++ (58 ∷ print_uint p))) (
          cut_last-append n.host (print_uint p)
            (cut_last-IsDigit (print_uint p) (print_uint-IsDigit p)))
        ∙ (ap (λ q. (n.host, port_or_zero q)) (parse_int-print_uint p h)
            ∙ ap (λ q. (n.host, q)) (sym e)))
