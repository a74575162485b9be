-- ===== src/Meter/Parser/Callback.antt =====
-- The parser on a text that comes in pieces, and the parser with another callback.
use smartmeterreader.Prelude.{
  ℕ, ◌≡◌, refl, sym, ap, Bool, true, false, if◌then◌else◌, List, [], ◌∷◌, ◌++◌, Option, none, some,
  ◌>>=◌, Option-cases, inl, inr, >>=-eq-some, some-eq,
}
use smartmeterreader.Meter.Values.{Values}
use smartmeterreader.Meter.Parser.{Parser, parse_str, parse_ch, notify}

-- What `parse_str` gives, with the result of an earlier call.
abbrev pub after {ℓ} : {S : Type ℓ} → Bool → Parser × S × Bool → Parser × S × Bool
after ok (p, s, ok') = (p, s, if ok then ok' else false)

abbrev pub image : {S T : Type 0} → (S → T) → Parser × S × Bool → Parser × T × Bool
image f r = (r.0, f r.1, r.2)

module _ {S : Type 0} where
  after-true : (m : Option (Parser × S × Bool)) → (m >>= λ q. some (after true q)) ≡ m
  after-true none = refl
  after-true (some q) = refl

  after_both :
      (b ok : Bool) (m : Option (Parser × S × Bool))
      → ((m >>= λ q. some (after ok q)) >>= λ q. some (after b q))
        ≡ (m >>= λ q. some (after (if b then ok else false) q))
  after_both b ok none = refl
  after_both true ok (some q) = refl
  after_both false ok (some q) = refl

  -- Two calls behind a character.
  after_calls :
      (b : Bool) (m : Option (Parser × S × Bool)) (k : Parser → S → Option (Parser × S × Bool))
      → ((m >>= λ r. k r.0 r.1 >>= λ q. some (after r.2 q)) >>= λ q. some (after b q))
        ≡ ((m >>= λ q. some (after b q)) >>= λ r. k r.0 r.1 >>= λ q. some (after r.2 q))
  after_calls b none k = refl
  after_calls b (some (p, s, ok)) k = after_both b ok (k p s)

module _ {S : Type 0} (on_frame : Parser → Values → S → S) where
  -- A text is parsed alike in one call and in two.
  pub parse_str-append :
      (xs ys : List ℕ) (p : Parser) (s : S)
      → parse_str on_frame p s (xs ++ ys) ≡ (
          parse_str on_frame p s xs >>= λ r.
          parse_str on_frame r.0 r.1 ys >>= λ q. some (after r.2 q))
  unfolding parse_str
  parse_str-append [] ys p s = sym (after-true (parse_str on_frame p s ys))
  parse_str-append (c ∷ xs) ys p s = elim (Option-cases (parse_ch p c)) [
    | inl e ↦ rw e refl
    | inr (r, e) ↦ rw e (
        rw (parse_str-append xs ys r.0 (notify on_frame r.0 r.2 s)) (
          after_calls r.1 (parse_str on_frame r.0 (notify on_frame r.0 r.2 s) xs)
            (λ p' s'. parse_str on_frame p' s' ys)))
  ]

-- A callback that works on the image of a state gives the image of what the callback on the state gives.
module _ {S T : Type 0} (on_frame : Parser → Values → S → S) (on_frame' : Parser → Values → T → T)
    (f : S → T) where
  notify-map :
      (p : Parser) (frame : Option Values) (s : S)
      → ((v : Values) → f (on_frame p v s) ≡ on_frame' p v (f s))
      → notify on_frame' p frame (f s) ≡ f (notify on_frame p frame s)
  notify-map p none s h = refl
  notify-map p (some v) s h = sym (h v)

  after_map :
      (b : Bool) (m : Option (Parser × S × Bool))
      → ((m >>= λ r. some (image f r)) >>= λ q. some (after b q))
        ≡ ((m >>= λ q. some (after b q)) >>= λ r. some (image f r))
  after_map b none = refl
  after_map b (some r) = refl

  pub parse_str-map :
      (text : List ℕ) (p : Parser) (s : S)
      → ((p : Parser) (v : Values) (s : S) → f (on_frame p v s) ≡ on_frame' p v (f s))
      → parse_str on_frame' p (f s) text ≡ (parse_str on_frame p s text >>= λ r. some (image f r))
  unfolding parse_str
  parse_str-map [] p s h = refl
  parse_str-map (c ∷ text) p s h = elim (Option-cases (parse_ch p c)) [
    | inl e ↦ rw e refl
    | inr (r, e) ↦ rw e (
        rw (notify-map r.0 r.2 s (λ v. h r.0 v s)) (
          rw (parse_str-map text r.0 (notify on_frame r.0 r.2 s) h)
            (after_map r.1 (parse_str on_frame r.0 (notify on_frame r.0 r.2 s) text))))
  ]

-- What the callback keeps of its state, the parser keeps, where it returns.
module _ {S : Type 0} (on_frame : Parser → Values → S → S) (P : S → Type 0) where
  notify-keeps :
      (p : Parser) (frame : Option Values) (s : S)
      → ((p : Parser) (v : Values) (s : S) → P s → P (on_frame p v s))
      → P s
      → P (notify on_frame p frame s)
  notify-keeps p none s k h = h
  notify-keeps p (some v) s k h = k p v s h

  pub parse_str-keeps :
      (text : List ℕ) (p : Parser) (s : S) {r : Parser × S × Bool}
      → ((p : Parser) (v : Values) (s : S) → P s → P (on_frame p v s))
      → P s
      → parse_str on_frame p s text ≡ some r
      → P r.1
  unfolding parse_str
  parse_str-keeps [] p s {r} k h e = rw (← ap (λ q. q.1) (some-eq e)) h
  parse_str-keeps (c ∷ text) p s {r} k h e =
      let (step, first, rest) = >>=-eq-some (parse_ch p c) _ e in
      let (q, inner, last) =
        >>=-eq-some (parse_str on_frame step.0 (notify on_frame step.0 step.2 s) text) _ rest in
      let kept =
        parse_str-keeps text step.0 (notify on_frame step.0 step.2 s) k
          (notify-keeps step.0 step.2 s k h) inner in
      rw (← ap (λ q. q.1) (some-eq last)) kept
