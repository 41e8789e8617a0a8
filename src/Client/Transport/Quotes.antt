-- ===== src/Client/Transport/Quotes.antt =====
-- transport.go: `splitWithQuotes` reads back what is quoted.
use agent_sets.Prelude.{
  ==_iff, All, Bool, List, [], ap, append-nil, append_assoc, arith, false, inl, inr, map, refl, sym,
  true, ℕ, ◌++◌, ◌==◌, ◌||◌, ◌∙◌, ◌∷◌, ◌≡◌, ◌≢◌, ◌⊎◌,
}
use agent_sets.Domain.{is_empty}
use agent_sets.Client.Transport.{QuoteState, read_char, read_chars, end_arg, split_with_quotes}
use agent_sets.Text.{Bytes, join, equal}

abbrev pub IsQuote : ℕ → Type 0
IsQuote q = (q ≡ b'"') ⊎ (q ≡ 0x27)

-- An argument between two quotes, which it has not inside.
abbrev pub quoted : ℕ → Bytes → Bytes
quoted q w = q ∷ (w ++ (q ∷ []))

abbrev pub IsQuotable : ℕ → Bytes → Type 0
IsQuotable q w = (w ≢ []) × All (λ c. c ≢ q) w

quote_test : (q : ℕ) → IsQuote q → (q == b'"' || q == 0x27) ≡ true
quote_test q (inl e) = rw e refl
quote_test q (inr e) = rw e refl

at_state : List Bytes → Bytes → Bool → ℕ → QuoteState
at_state args current in_quote q = record {
  args = args;
  current = current;
  in_quote = in_quote;
  quote_char = q;
}

close_quote :
    (args : List Bytes) (current : Bytes) (q : ℕ)
    → read_char q (at_state args current true q) ≡ at_state args current false q
unfolding read_char at_state
close_quote args current q = let e : (q == q) ≡ true = (==_iff q q).1 refl in rw e refl

quoted_char :
    (args : List Bytes) (current : Bytes) (c q : ℕ)
    → c ≢ q
    → read_char c (at_state args current true q) ≡ at_state args (current ++ (c ∷ [])) true q
unfolding read_char at_state
quoted_char args current c q ne = let e : (c == q) ≡ false = ground (arith, ne) in rw e refl

open_quote :
    (args : List Bytes) (q k : ℕ)
    → IsQuote q
    → read_char q (at_state args [] false k) ≡ at_state args [] true q
unfolding read_char at_state
open_quote args q k is = rw (quote_test q is) refl

-- The bytes inside of quotes, and the quote behind them.
inside-quotes :
    (args : List Bytes) (q : ℕ) (w current rest : Bytes)
    → All (λ c. c ≢ q) w
    → read_chars (w ++ (q ∷ rest)) (at_state args current true q)
      ≡ read_chars rest (at_state args (current ++ w) false q)
unfolding read_chars
inside-quotes args q [] current rest h = ap (read_chars rest) (
    close_quote args current q
    ∙ ap (λ (x : Bytes). at_state args x false q) (sym (append-nil current)))
inside-quotes args q (c ∷ w) current rest (ne, h) =
    ap (read_chars (w ++ (q ∷ rest))) (quoted_char args current c q ne)
    ∙ inside-quotes args q w (current ++ (c ∷ [])) rest h
    ∙ ap (λ (x : Bytes). read_chars rest (at_state args x false q))
        (append_assoc current (c ∷ []) w)

-- A quoted argument at the start of an argument.
read_chars-quoted :
    (args : List Bytes) (q k : ℕ) (w rest : Bytes)
    → IsQuote q
    → All (λ c. c ≢ q) w
    → read_chars (quoted q w ++ rest) (at_state args [] false k)
      ≡ read_chars rest (at_state args w false q)
unfolding read_chars
read_chars-quoted args q k w rest is h =
    ap (read_chars ((w ++ (q ∷ [])) ++ rest)) (open_quote args q k is)
    ∙ ap (λ (x : Bytes). read_chars x (at_state args [] true q)) (append_assoc w (q ∷ []) rest)
    ∙ inside-quotes args q w [] rest h

end_arg-full :
    (args : List Bytes) (w : Bytes) (q : ℕ)
    → w ≢ []
    → end_arg (at_state args w false q) ≡ args ++ (w ∷ [])
unfolding end_arg at_state is_empty equal
end_arg-full args [] q h = absurd (h refl)
end_arg-full args (c ∷ w) q h = refl

read_chars-space :
    (args : List Bytes) (w : Bytes) (q : ℕ) (rest : Bytes)
    → w ≢ []
    → read_chars (b' ' ∷ rest) (at_state args w false q)
      ≡ read_chars rest (at_state (args ++ (w ∷ [])) [] false q)
unfolding read_chars read_char at_state
read_chars-space args w q rest h =
    ap (λ (x : List Bytes). read_chars rest (at_state x [] false q)) (end_arg-full args w q h)

end_arg-empty :
    (args : List Bytes) (k : ℕ) → end_arg (read_chars [] (at_state args [] false k)) ≡ args
unfolding end_arg at_state is_empty equal read_chars
end_arg-empty args k = refl

read_line :
    (args : List Bytes) (q k : ℕ) (ws : List Bytes)
    → IsQuote q
    → All (IsQuotable q) ws
    → end_arg (read_chars (join (map (quoted q) ws) (b' ' ∷ [])) (at_state args [] false k))
      ≡ args ++ ws
unfolding join read_chars
read_line args q k [] is h = end_arg-empty args k ∙ sym (append-nil args)
read_line args q k (w ∷ []) is ((ne, h), _) =
    ap (λ (x : Bytes). end_arg (read_chars x (at_state args [] false k)))
      (sym (append-nil (quoted q w)))
    ∙ ap end_arg (read_chars-quoted args q k w [] is h)
    ∙ end_arg-full args w q ne
read_line args q k (w ∷ v ∷ ws) is ((ne, h), hs) =
    ap end_arg
      (read_chars-quoted args q k w (b' ' ∷ join (map (quoted q) (v ∷ ws)) (b' ' ∷ [])) is h)
    ∙ ap end_arg (read_chars-space args w q (join (map (quoted q) (v ∷ ws)) (b' ' ∷ [])) ne)
    ∙ read_line (args ++ (w ∷ [])) q q (v ∷ ws) is hs
    ∙ append_assoc args (w ∷ []) (v ∷ ws)

-- Arguments that are written between quotes and with spaces between them are read back, where none is
-- empty and none has the quote inside.
pub split_with_quotes-quoted :
    (q : ℕ) (ws : List Bytes)
    → IsQuote q
    → All (IsQuotable q) ws
    → split_with_quotes (join (map (quoted q) ws) (b' ' ∷ [])) ≡ ws
unfolding split_with_quotes at_state
split_with_quotes-quoted q ws is h = read_line [] q 0 ws is h
