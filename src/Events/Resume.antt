-- ===== src/Events/Resume.antt =====
-- Reading the stream page by page.
use paihuo.Prelude.{
  ℕ, zero, suc, ◌≤◌, ◌<◌, ◌≡◌, refl, Bool, true, false, List, [], ◌∷◌, ◌++◌, arith, ltb, length,
  take, drop, keep, Bool-cases, inl, inr, sym, ap, ◌∙◌, ltb→lt, subst, ◌+◌, ◌⊎◌, length-append,
}
use paihuo.Events.{
  Event, Stream, append_event, remember, publish, page_size, list_events_after, history,
}

page_size_twice :
    (limit : ℕ) → (page_size (page_size limit) ≡ page_size limit) × (page_size limit ≤ 1000)
page_size_twice limit = (ground arith, ground arith)

zero_or : (n : ℕ) → (n ≡ 0) ⊎ (0 < n)
zero_or zero = inl refl
zero_or (suc n) = inr (omega arith)

module _ {A : Type 0} where
  -- The events after a number.
  abbrev pub missed : ℕ → List (Event A) → List (Event A)
  missed after es = keep (λ e. ltb after e.seq) es

  -- The number that a reader holds after a page.
  abbrev pub last_seen : ℕ → List (Event A) → ℕ
  last_seen s [] = s
  last_seen s (e ∷ es) = last_seen e.seq es

  abbrev pub Ascending : ℕ → List (Event A) → Type 0
  Ascending n [] = Unit
  Ascending n (e ∷ es) = (n < e.seq) × Ascending e.seq es

  -- An ascending log after `n` that ends at `last`.
  abbrev pub Numbered : ℕ → ℕ → List (Event A) → Type 0
  Numbered n last [] = n ≤ last
  Numbered n last (e ∷ es) = (n < e.seq) × Numbered e.seq last es

  Numbered-append :
      (n last : ℕ) (es : List (Event A)) (e : Event A)
      → Numbered n last es
      → e.seq ≡ suc last
      → Numbered n (suc last) (es ++ (e ∷ []))
  Numbered-append n last [] e h f = (omega arith, omega arith)
  Numbered-append n last (x ∷ xs) e h f = (h.0, Numbered-append x.seq last xs e h.1 f)

  missed_all : (s n last : ℕ) (es : List (Event A)) → s ≤ n → Numbered n last es → missed s es ≡ es
  missed_all s n last [] le h = refl
  missed_all s n last (e ∷ es) le h =
      ground (arith, h.0, missed_all s e.seq last es (omega (arith, h.0)) h.1)

  last_seen_above :
      (s n last : ℕ) (k : ℕ) (es : List (Event A))
      → s ≤ n
      → Numbered n last es
      → s ≤ last_seen s (take k es)
  last_seen_above s n last zero es le h = omega arith
  last_seen_above s n last (suc k) [] le h = omega arith
  last_seen_above s n last (suc k) (e ∷ es) le h =
      omega (arith, h.0, last_seen_above e.seq e.seq last k es (omega arith) h.1)

  take-drop : (k : ℕ) (es : List (Event A)) → take k es ++ drop k es ≡ es
  take-drop zero es = refl
  take-drop (suc k) [] = refl
  take-drop (suc k) (e ∷ es) = ap (λ r. e ∷ r) (take-drop k es)

  length-take_le : (k : ℕ) (es : List (Event A)) → length (take k es) ≤ k
  length-take_le zero es = omega arith
  length-take_le (suc k) [] = omega arith
  length-take_le (suc k) (e ∷ es) = omega (arith, length-take_le k es)

  take_nothing : (k : ℕ) (es : List (Event A)) → 0 < k → length (take k es) ≡ 0 → length es ≡ 0
  take_nothing zero es pos e = absurd (omega (arith, pos))
  take_nothing (suc k) [] pos e = refl
  take_nothing (suc k) (x ∷ xs) pos e = absurd (omega (arith, e))

  no_length : (es : List (Event A)) → length es ≤ 0 → es ≡ []
  no_length [] le = refl
  no_length (e ∷ es) le = absurd (omega (arith, le))

  missed_skip :
      (l : ℕ) (e : Event A) (es : List (Event A)) → e.seq ≤ l → missed l (e ∷ es) ≡ missed l es
  missed_skip l e es le = ground arith

  last_seen-missed :
      (s n last k : ℕ) (es : List (Event A))
      → Numbered n last es
      → s ≤ last_seen s (take k (missed s es))
  last_seen-missed s n last zero es h = omega arith
  last_seen-missed s n last (suc k) [] h = omega arith
  last_seen-missed s n last (suc k) (e ∷ es) h = elim (Bool-cases (ltb s e.seq)) [
    | inl after ↦
        let whole : e ∷ es ≡ missed s (e ∷ es) =
          sym (missed_all s s last (e ∷ es) (omega arith) (ltb→lt s e.seq after, h.1)) in
        subst (λ (l : List (Event A)). s ≤ last_seen s (take (suc k) l)) whole
          (last_seen_above s s last (suc k) (e ∷ es) (omega arith) (ltb→lt s e.seq after, h.1))
    | inr before ↦
        let less : missed s es ≡ missed s (e ∷ es) = ground (arith, before) in
        subst (λ (l : List (Event A)). s ≤ last_seen s (take (suc k) l)) less
          (last_seen-missed s e.seq last (suc k) es h.1)
  ]

  -- Skipping what a page has shown.
  missed-page :
      (s n last k : ℕ) (es : List (Event A))
      → Numbered n last es
      → missed (last_seen s (take k (missed s es))) es ≡ drop k (missed s es)
  missed-page s n last zero es h = refl
  missed-page s n last (suc k) [] h = refl
  missed-page s n last (suc k) (e ∷ es) h = elim (Bool-cases (ltb s e.seq)) [
    | inl after ↦
        let all : missed e.seq es ≡ es = missed_all e.seq e.seq last es (omega arith) h.1 in
        let whole : e ∷ es ≡ missed s (e ∷ es) =
          sym (missed_all s s last (e ∷ es) (omega arith) (ltb→lt s e.seq after, h.1)) in
        let step : missed (last_seen e.seq (take k es)) es ≡ drop k es =
          subst (λ (l : List (Event A)). missed (last_seen e.seq (take k l)) es ≡ drop k l) all
            (missed-page e.seq e.seq last k es h.1) in
        subst
          (λ (l : List (Event A)). missed (last_seen s (take (suc k) l)) (e ∷ es) ≡ drop (suc k) l)
          whole
          (missed_skip _ e es (last_seen_above e.seq e.seq last k es (omega arith) h.1) ∙ step)
    | inr before ↦
        let less : missed s es ≡ missed s (e ∷ es) = ground (arith, before) in
        subst
          (λ (l : List (Event A)). missed (last_seen s (take (suc k) l)) (e ∷ es) ≡ drop (suc k) l)
          less
          (missed_skip _ e es
              (omega (arith, last_seen-missed s e.seq last (suc k) es h.1, not_after before))
            ∙ missed-page s e.seq last (suc k) es h.1)
  ]
    where
      not_after : ltb s e.seq ≡ false → e.seq ≤ s
      not_after b = ground arith

  -- The numbers of the log ascend, up to the counter.
  abbrev pub IsNumbered : Stream A → Type 0
  IsNumbered s = Numbered 0 s.last_seq s.log

  -- Publishing keeps the log numbered: with a store, each new event takes a number above all those before
  -- it, whether or not its content can be marshalled; without one the log is not touched.
  pub publish-IsNumbered :
      (marshals : A → Bool) (failure : A) (now : ℕ) (content : A) (s : Stream A)
      → IsNumbered s
      → IsNumbered (publish marshals failure now content s)
  unfolding publish append_event remember
  publish-IsNumbered marshals failure now content s h = elim (Bool-cases s.persistent) [
    | inl p ↦ rw p (Numbered-append 0 s.last_seq s.log _ h refl)
    | inr p ↦ rw p h
  ]

  module _ (after limit : ℕ) (s : Stream A) (h : IsNumbered s) (p : s.persistent ≡ true) where
    room : ℕ
    room = page_size (page_size limit)

    history_page : take room (missed after s.log) ≡ history after limit s
    unfolding room history list_events_after
    history_page = rw p refl

    history_splits :
        missed after s.log
        ≡ history after limit s ++ missed (last_seen after (history after limit s)) s.log
    history_splits =
        subst (λ (l : List (Event A)). missed after s.log ≡ l ++ missed (last_seen after l) s.log)
          history_page
          (sym (
            ap (λ (r : List (Event A)). take room (missed after s.log) ++ r)
              (missed-page after 0 s.last_seq room s.log h)
            ∙ take-drop room (missed after s.log)))

    history_short : length (history after limit s) ≤ 1000
    unfolding room
    history_short =
        subst (λ (l : List (Event A)). length l ≤ 1000) history_page
          (omega (
            arith,
            length-take_le room (missed after s.log),
            (page_size_twice limit).0,
            (page_size_twice limit).1,
          ))

    -- A page is empty only if nothing has been missed.
    history_advances : length (history after limit s) ≡ 0 → length (missed after s.log) ≡ 0
    unfolding room
    history_advances none_left =
        let fits : 0 < room = ground arith in
        take_nothing room (missed after s.log) fits (ap length history_page ∙ none_left)

    -- What is missed after a page is shorter than what was missed before it.
    missed_shrinks :
        (rounds : ℕ)
        → length (missed after s.log) ≤ suc rounds
        → length (missed (last_seen after (history after limit s)) s.log) ≤ rounds
    missed_shrinks rounds le =
        let rest = missed (last_seen after (history after limit s)) s.log in
        let sum : length (missed after s.log) ≡ length (history after limit s) + length rest =
          ap length history_splits ∙ length-append (history after limit s) rest in
        elim (zero_or (length (history after limit s))) [
          | inl e ↦ omega (arith, history_advances e, sum)
          | inr e ↦ omega (arith, sum, e)
        ]

  -- A reader that asks for page after page, each after the last event that it has seen.
  unfoldable pub catch_up : ℕ → ℕ → ℕ → Stream A → List (Event A)
  catch_up zero after limit s = []
  catch_up (suc rounds) after limit s =
      let page = history after limit s in page ++ catch_up rounds (last_seen after page) limit s

  catch_up-missed :
      (rounds after limit : ℕ) (s : Stream A)
      → IsNumbered s
      → s.persistent ≡ true
      → length (missed after s.log) ≤ rounds
      → catch_up rounds after limit s ≡ missed after s.log
  unfolding catch_up
  catch_up-missed zero after limit s h p le = sym (no_length (missed after s.log) le)
  catch_up-missed (suc rounds) after limit s h p le =
      ap (λ (r : List (Event A)). history after limit s ++ r)
        (catch_up-missed rounds (last_seen after (history after limit s)) limit s h p
          (missed_shrinks after limit s h p rounds le))
      ∙ sym (history_splits after limit s h p)

  -- With a store, a reader that asks `History` for a page after the number it has seen gets at most 1000
  -- events, and what it has missed is that page followed by what it has missed after the page's last
  -- event; and it catches up: as many pages as it has missed events, or more, each asked for after the
  -- last event seen, show every event that it has missed once and in order. The numbers in the log have
  -- to ascend, as `Publish` leaves them.
  pub history-resume :
      (after limit rounds : ℕ) (s : Stream A)
      → IsNumbered s
      → s.persistent ≡ true
      → length (missed after s.log) ≤ rounds
      → (missed after s.log
          ≡ history after limit s ++ missed (last_seen after (history after limit s)) s.log)
        × (length (history after limit s) ≤ 1000)
        × (catch_up rounds after limit s ≡ missed after s.log)
  history-resume after limit rounds s h p le = (
    history_splits after limit s h p,
    history_short after limit s h p,
    catch_up-missed rounds after limit s h p le,
  )
