-- ===== src/Schemas/Symbols.antt =====
-- How an accepted symbol is split into its assets.
use Prim.Native.Char.{Char, code}
use multi_platform_crypto_tr.Base.{
  ℕ, ◌≤◌, ◌≡◌, ◌∙◌, sym, ◌⊎◌, ap, refl, inl, inr, String, true, false, ◌||◌, some, arith, ◌==◌,
  Bool-cases, Option-cases,
}
use multi_platform_crypto_tr.Api.ClientAddress.Forged.{append}
use multi_platform_crypto_tr.Config.{len}
use multi_platform_crypto_tr.Exchange.Symbol.{split_once, split_symbol}
use multi_platform_crypto_tr.Schemas.{
  in_class, run, after, is_end, ends_in_token, matches_symbol_pattern,
}

-- A text without separators in front of another one.
abbrev Passes : String → Type 0
Passes t =
    (c : ℕ) (w : String)
    → in_class c ≡ false
    → split_once c (append t w) ≡ (append t (split_once c w).0, (split_once c w).1)

-- Only letters and digits of the class that the pattern names.
abbrev pub HasClass : String → Type 0
HasClass String.[] = Unit
HasClass (String.◌∷◌ c s) = (in_class (code c) ≡ true) × HasClass s

-- the token that a run reads
run_token :
    (s : String)
    → (t : String) × (s ≡ append t (run s).1) × (len t ≡ (run s).0) × Passes t × HasClass t
unfolding run split_once append
run_token String.[] = (String.[], refl, refl, λ c w h. refl, tt)
run_token (String.◌∷◌ x s) = elim (Bool-cases (in_class (code x))) [
  | inl member ↦
      let (t, whole, long, passes, class) = run_token s in
      (
        String.◌∷◌ x t,
        rw member (ap (λ u. String.◌∷◌ x u) whole),
        rw member (omega (arith, long)),
        λ c w h.
            let other : (code x == c) ≡ false = ground (arith, member, h) in
            ground (arith, other, passes c w h),
        (member, class),
      )
  | inr stranger ↦ (String.[], rw stranger refl, rw stranger refl, λ c w h. refl, tt)
]

append-empty : (t : String) → append t "" ≡ t
unfolding append
append-empty String.[] = refl
append-empty (String.◌∷◌ x t) = ap (λ u. String.◌∷◌ x u) (append-empty t)

-- a separator and what follows it
split_at : (c : ℕ) (s rest : String) → after c s ≡ some rest → split_once c s ≡ ("", some rest)
unfolding split_once
split_at c String.[] rest e = ground (arith, e)
split_at c (String.◌∷◌ x s) rest e = ground (arith, e)

split_past :
    (c d : ℕ) (s rest : String)
    → after d s ≡ some rest
    → (d == c) ≡ false
    → (before : String) × (split_once c s ≡ (before, (split_once c rest).1))
      × (after d before ≡ some (split_once c rest).0)
unfolding split_once
split_past c d String.[] rest e h = ground (arith, e)
split_past c d (String.◌∷◌ x s) rest e h =
    (String.◌∷◌ x (split_once c rest).0, ground (arith, e, h), ground (arith, e))

quote_end : (r : String) → is_end r ≡ true → (split_once b':' r).0 ≡ ""
unfolding split_once
quote_end String.[] h = refl
quote_end (String.◌∷◌ x r) h = ground (arith, h)

quote_core :
    (r : String) → (is_end r || ends_in_token (after b':' r)) ≡ true → (split_once b':' r).0 ≡ ""
quote_core r h = elim (Option-cases (after b':' r)) [
  | inl none_left ↦ quote_end r (ground (arith, none_left, h))
  | inr (u, found) ↦ ap (λ p. p.0) (split_at b':' r u found)
]

in_halves :
    (s default base quote : String)
    → split_once b'/' (split_once b':' s).0 ≡ (base, some quote)
    → split_symbol s default ≡ (base, quote)
unfolding split_symbol
in_halves s default base quote e = ground (arith, e)

-- A text that starts with the character of this code.
abbrev pub Starts : ℕ → String → String → Type 0
Starts c s q = (x : Char) × (code x ≡ c) × (s ≡ String.◌∷◌ x q)

after-Starts : (c : ℕ) (s q : String) → after c s ≡ some q → Starts c s q
after-Starts c String.[] q e = ground (arith, e)
after-Starts c (String.◌∷◌ x s) q e = (
  x,
  ground (arith, e),
  elim (Bool-cases (code x == c)) [
    | inl same ↦ ap (String.◌∷◌ x) (ground (arith, e, same))
    | inr other ↦ ground (arith, e, other)
  ],
)

-- What may follow the quote: nothing, or a colon and a settlement asset.
ends_or_settles :
    (r : String)
    → (is_end r || ends_in_token (after b':' r)) ≡ true
    → (r ≡ "") ⊎ ((settle : String) × Starts b':' r settle)
ends_or_settles String.[] h = inl refl
ends_or_settles (String.◌∷◌ x s) h = elim (Option-cases (after b':' (String.◌∷◌ x s))) [
  | inl absent ↦ ground (arith, absent, h)
  | inr (u, found) ↦ inr (u, after-Starts b':' (String.◌∷◌ x s) u found)
]

-- the two assets of a text that is read in two runs
two_runs :
    (s q : String)
    → after b'/' (run s).1 ≡ some q
    → (split_once b':' (run q).1).0 ≡ ""
    → (base : String) × (quote : String) × ((default : String)
        → split_symbol s default ≡ (base, quote))
      × (len base ≡ (run s).0)
      × (len quote ≡ (run q).0)
      × ((tail : String) × Starts b'/' tail (append quote (run q).1) × (s ≡ append base tail))
      × HasClass base
      × HasClass quote
two_runs s q slash tail =
    let (t, whole, long, passes, class) = run_token s in
    let (u, rest, wide, passes', class') = run_token q in
    let (before, cut, kept) = split_past b':' b'/' (run s).1 q slash refl in
    let inner : (split_once b':' q).0 ≡ u =
      ap (λ x. (split_once b':' x).0) rest
      ∙ ap (λ p. p.0) (passes' b':' (run q).1 refl)
      ∙ ap (append u) tail
      ∙ append-empty u in
    let core : (split_once b':' s).0 ≡ append t before =
      ap (λ x. (split_once b':' x).0) whole
      ∙ ap (λ p. p.0) (passes b':' (run s).1 refl)
      ∙ ap (λ p. append t p.0) cut in
    let halves : split_once b'/' (append t before) ≡ (t, some u) =
      passes b'/' before refl
      ∙ ap (λ p. (append t p.0, p.1)) (split_at b'/' before (split_once b':' q).0 kept)
      ∙ ap (λ x. (x, some (split_once b':' q).0)) (append-empty t)
      ∙ ap (λ x. (t, some x)) inner in
    (
      t,
      u,
      λ default. in_halves s default t u (ap (split_once b'/') core ∙ halves),
      long,
      wide,
      ((run s).1, rw (sym rest) (after-Starts b'/' (run s).1 q slash), whole),
      class,
      class',
    )

-- An accepted symbol is a base of 1 to 20 characters, a slash, a quote of 1 to 20 characters, and
-- nothing more or something that starts with a colon; base and quote have only letters and digits of
-- the pattern. The symbol is split into this base and this quote, whatever quote would be taken for a
-- symbol without one.
pub accepted_symbol_splits :
    (symbol : String)
    → matches_symbol_pattern symbol ≡ true
    → (base : String) × (quote : String) × ((default : String)
        → split_symbol symbol default ≡ (base, quote))
      × (1 ≤ len base)
      × (len base ≤ 20)
      × (1 ≤ len quote)
      × (len quote ≤ 20)
      × HasClass base
      × HasClass quote
      × (slash : Char) × (code slash ≡ b'/')
      × (rest : String) × (symbol ≡ append base (String.◌∷◌ slash (append quote rest)))
      × ((rest ≡ "") ⊎ ((settle : String) × Starts b':' rest settle))
unfolding matches_symbol_pattern
accepted_symbol_splits symbol h = elim (Option-cases (after b'/' (run symbol).1)) [
  | inl absent ↦ ground (arith, absent, h)
  | inr (q, slash) ↦
      let tail = quote_core (run q).1 (ground (arith, slash, h)) in
      let (base, quote, splits, long, wide, (tail, (x, is_slash, starts), whole), class, class') =
        two_runs symbol q slash tail in
      (
        base,
        quote,
        splits,
        ground (arith, slash, h, long),
        ground (arith, slash, h, long),
        ground (arith, slash, h, wide),
        ground (arith, slash, h, wide),
        class,
        class',
        x,
        is_slash,
        (run q).1,
        whole ∙ ap (append base) starts,
        ends_or_settles (run q).1 (ground (arith, slash, h)),
      )
]
