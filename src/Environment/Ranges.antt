-- ===== src/Environment/Ranges.antt =====
-- The numbers that internal/config/env.go reads from single variables lie in their ranges.
use Prim.Native.String.{[], ◌∷◌}
use Prim.Native.Char.{code}
use rw_node_go.Common.{
  true, false, nat_eq, if_cases, zero, suc, ◌<◌, if◌then◌else◌, ℕ, ◌≤◌, ℤ, pos, negsuc, ◌≡◌, refl,
  inl, inr, ◌||◌, Bool, String, ◌==◌, Result, ok, err, arith,
}
use rw_node_go.Golang.Strings.{trim_space}
use rw_node_go.Golang.Numbers.{
  parse_int, positive, negative, syntax_error, range_error, int_limit, number, Scan, read,
  malformed, too_large,
}
use rw_node_go.Environment.{
  Variables, env_port, env_optional_port, env_non_negative_int64, port_parsed, limit_parsed,
}

-- An integer between two bounds.
abbrev pub IsWithin : ℕ → ℕ → ℤ → Type 0
IsWithin low high (pos n) = (low ≤ n) × (n ≤ high)
IsWithin low high (negsuc n) = ⊥

ok-IsWithin :
    (low high n : ℕ) (p : ℤ) → low ≤ n → n ≤ high → ok (pos n) ≡ ok p → IsWithin low high p
ok-IsWithin low high n (pos m) a b h = ground arith
ok-IsWithin low high n (negsuc m) a b h = cc

widen : (p : ℤ) → IsWithin 1 65535 p → IsWithin 0 65535 p
widen (pos n) h = (omega arith, h.1)
widen (negsuc n) h = elim h [ ]

-- A fallback within the bounds, or a value that is checked.
fallback-IsWithin :
    (low high n : ℕ) (unset : Bool) (r : Result ℤ) (p : ℤ)
    → low ≤ n
    → n ≤ high
    → (r ≡ ok p → IsWithin low high p)
    → (if unset then ok (pos n) else r) ≡ ok p
    → IsWithin low high p
fallback-IsWithin low high n true r p a b f h = ok-IsWithin low high n p a b h
fallback-IsWithin low high n false r p a b f h = f h

module _ (quote : String → String) (getenv : Variables) where
  port_parsed-IsWithin :
      (key : String) (r : Result ℤ) (p : ℤ)
      → port_parsed quote getenv key r ≡ ok p
      → IsWithin 1 65535 p
  port_parsed-IsWithin key (err e) p h = cc
  port_parsed-IsWithin key (ok (pos n)) (pos m) h = ground arith
  port_parsed-IsWithin key (ok (pos n)) (negsuc m) h = ground arith
  port_parsed-IsWithin key (ok (negsuc n)) p h = ground arith

  pub env_port-IsWithin :
      (key : String) (n : ℕ) (p : ℤ)
      → 1 ≤ n
      → n ≤ 65535
      → env_port quote getenv key (pos n) ≡ ok p
      → IsWithin 1 65535 p
  unfolding env_port
  env_port-IsWithin key n p a b h =
      let value = trim_space (getenv key) in
      let parsed = parse_int quote "Atoi" value in
      fallback-IsWithin 1 65535 n (value == "") (port_parsed quote getenv key parsed) p a b
        (port_parsed-IsWithin key parsed p) h

  pub env_optional_port-IsWithin :
      (key : String) (p : ℤ) → env_optional_port quote getenv key ≡ ok p → IsWithin 0 65535 p
  unfolding env_optional_port env_port
  env_optional_port-IsWithin key p h =
      let value = trim_space (getenv key) in
      let parsed = parse_int quote "Atoi" value in
      fallback-IsWithin 0 65535 0 (value == "" || value == "0") (env_port quote getenv key (pos 0))
        p (omega arith) (omega arith)
        (fallback-IsWithin 0 65535 0 (value == "") (port_parsed quote getenv key parsed) p
          (omega arith) (omega arith) (λ g. widen p (port_parsed-IsWithin key parsed p g)))
        h

  -- A number that strconv reads fits into 64 bits.
  positive-IsWithin :
      (scan : Scan) (a b : String) (n : ℕ) → positive scan a b ≡ ok (pos n) → n < int_limit
  unfolding positive
  positive-IsWithin malformed a b n h = cc
  positive-IsWithin too_large a b n h = cc
  positive-IsWithin (read m) a b n h = ground arith

  negative-IsWithin :
      (scan : Scan) (a b : String) (n : ℕ) → negative scan a b ≡ ok (pos n) → n < int_limit
  unfolding negative
  negative-IsWithin malformed a b n h = cc
  negative-IsWithin too_large a b n h = cc
  negative-IsWithin (read zero) a b n h = ground arith
  negative-IsWithin (read (suc m)) a b n h = ground arith

  parse_int-IsWithin :
      (func s : String) (n : ℕ) → parse_int quote func s ≡ ok (pos n) → n < int_limit
  unfolding parse_int
  parse_int-IsWithin func [] n h = cc
  parse_int-IsWithin func (c ∷ s) n h =
      let syntax = syntax_error quote func (c ∷ s) in
      let range = range_error quote func (c ∷ s) in
      elim (if_cases (nat_eq (code c) 45) h) [
        | inl g ↦ negative-IsWithin (number s) syntax range n g
        | inr g ↦ elim (if_cases (nat_eq (code c) 43) g) [
          | inl k ↦ positive-IsWithin (number s) syntax range n k
          | inr k ↦ positive-IsWithin (number (c ∷ s)) syntax range n k
        ]
      ]

  limit_parsed-IsWithin :
      (key : String) (r : Result ℤ) (p : ℤ)
      → ((n : ℕ) → r ≡ ok (pos n) → n < int_limit)
      → limit_parsed quote getenv key r ≡ ok p
      → IsWithin 0 9223372036854775807 p
  limit_parsed-IsWithin key (err e) p f h = cc
  limit_parsed-IsWithin key (ok (pos n)) (pos m) f h = ground (arith, f n refl)
  limit_parsed-IsWithin key (ok (pos n)) (negsuc m) f h = ground arith
  limit_parsed-IsWithin key (ok (negsuc n)) p f h = ground arith

  pub env_non_negative_int64-IsWithin :
      (key : String) (n : ℕ) (p : ℤ)
      → n < int_limit
      → env_non_negative_int64 quote getenv key (pos n) ≡ ok p
      → IsWithin 0 9223372036854775807 p
  unfolding env_non_negative_int64
  env_non_negative_int64-IsWithin key n p a h =
      let value = trim_space (getenv key) in
      let parsed = parse_int quote "ParseInt" value in
      fallback-IsWithin 0 9223372036854775807 n (value == "") (limit_parsed quote getenv key parsed)
        p (omega arith) (omega arith)
        (limit_parsed-IsWithin key parsed p (parse_int-IsWithin "ParseInt" value)) h
