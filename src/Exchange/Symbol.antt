-- ===== src/Exchange/Symbol.antt =====
-- `_split_symbol` of app/exchange/paper.py, on the characters of a symbol.
use Prim.Native.Char.{code}
use multi_platform_crypto_tr.Base.{ℕ, String, ◌≡◌, refl, Option, none, some, ◌==◌, if◌then◌else◌}

-- `text.split(c, 1)`: what stands before the first `c`, and what stands after it if there is one
unfoldable pub split_once : ℕ → String → String × Option String
split_once c String.[] = (String.[], none)
split_once c (String.◌∷◌ x s) =
    let (before, after) = split_once c s in
    if code x == c then (String.[], some s) else (String.◌∷◌ x before, after)

-- `_split_symbol(symbol, default_quote)`: base and quote
unfoldable pub split_symbol : String → String → String × String
unfolding split_once
split_symbol symbol default_quote =
    let core = (split_once b':' symbol).0 in
    let (base, quote) = split_once b'/' core in
    elim quote [ none ↦ (core, default_quote) | some q ↦ (base, q) ]

split_symbol_runs :
    (split_symbol "BTC/USDT:USDT" "EUR" ≡ ("BTC", "USDT"))
    × (split_symbol "BTC" "EUR" ≡ ("BTC", "EUR"))
unfolding split_symbol
split_symbol_runs = (refl, refl)
