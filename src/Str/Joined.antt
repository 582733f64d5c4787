-- ===== src/Str/Joined.antt =====
-- Words joined by single spaces are split back, and strip() leaves them alone.
use lidb.Base.{
  ◌≡◌, refl, sym, ap, ◌∙◌, true, false, not, List, [], ◌∷◌, ◌++◌, arith, is_empty, all, All,
  append_assoc, append-nil,
}
use lidb.Str.Basic.{Text, codes}
use lidb.Str.Parts.{join}
use lidb.Str.Space.{is_space, flush, split_from, split, lstrip, rstrip, strip}
use lidb.Str.Words.{split_from-space, split_from-char}

-- A text with a character and no space.
pub record IsWord (t : Text) : Type 0 where
  pub not_empty : is_empty t ≡ false
  pub solid : all (λ c. not (is_space c)) t ≡ true

split_from-solid :
    (w t rest : Text)
    → all (λ c. not (is_space c)) t ≡ true
    → split_from w (t ++ rest) ≡ split_from (w ++ t) rest
split_from-solid w [] rest h = rw append-nil
split_from-solid w (c ∷ t) rest h =
    split_from-char w c (t ++ rest) (ground arith)
    ∙ split_from-solid (w ++ c ∷ []) t rest (ground arith)
    ∙ ap (λ (v : Text). split_from v rest) (append_assoc w (c ∷ []) t)

flush-IsWord : (t : Text) (ws : List Text) → IsWord t → flush t ws ≡ t ∷ ws
flush-IsWord [] ws h = cc (h.not_empty)
flush-IsWord (c ∷ t) ws h = refl

abbrev pub space : Text
space = codes " "

split_from-last : (t : Text) → IsWord t → split_from [] t ≡ t ∷ []
split_from-last t h =
    ap (split_from []) (sym (append-nil t))
    ∙ split_from-solid [] t [] h.solid
    ∙ unfold split_from in flush-IsWord t [] h

split_from-word :
    (t more : Text) → IsWord t → split_from [] (t ++ space ++ more) ≡ t ∷ split_from [] more
split_from-word t more h =
    ap (split_from []) (append_assoc t space more)
    ∙ split_from-solid [] t (space ++ more) h.solid
    ∙ split_from-space t b' ' more (unfold is_space in refl)
    ∙ flush-IsWord t (split_from [] more) h

pub split-join : (ts : List Text) → All IsWord ts → split (join space ts) ≡ ts
unfolding split join
split-join [] h = unfold split_from in refl
split-join (t ∷ []) h = split_from-last t h.0
split-join (t ∷ u ∷ ts) h =
    split_from-word t (join space (u ∷ ts)) h.0 ∙ ap (◌∷◌ t) (split-join (u ∷ ts) h.1)

rstrip-solid : (t : Text) → all (λ c. not (is_space c)) t ≡ true → rstrip is_space t ≡ t
unfolding rstrip
rstrip-solid [] h = refl
rstrip-solid (c ∷ t) h = ground (arith, rstrip-solid t)

append-not_empty : (s t : Text) → is_empty t ≡ false → is_empty (s ++ t) ≡ false
append-not_empty [] t k = k
append-not_empty (c ∷ s) t k = refl

rstrip-append :
    (s t : Text) → rstrip is_space t ≡ t → is_empty t ≡ false → rstrip is_space (s ++ t) ≡ s ++ t
unfolding rstrip
rstrip-append [] t h k = h
rstrip-append (c ∷ s) t h k = rw (rstrip-append s t h k, append-not_empty s t k)

join-not_empty :
    (t : Text) (ts : List Text) → All IsWord (t ∷ ts) → is_empty (join space (t ∷ ts)) ≡ false
unfolding join
join-not_empty t [] h = h.0.not_empty
join-not_empty t (u ∷ ts) h = append-not_empty (t ++ space) _ (join-not_empty u ts h.1)

rstrip-join :
    (t : Text) (ts : List Text)
    → All IsWord (t ∷ ts)
    → rstrip is_space (join space (t ∷ ts)) ≡ join space (t ∷ ts)
unfolding join
rstrip-join t [] h = rstrip-solid t h.0.solid
rstrip-join t (u ∷ ts) h =
    rstrip-append (t ++ space) _ (rstrip-join u ts h.1) (join-not_empty u ts h.1)

lstrip-IsWord : (t rest : Text) → IsWord t → lstrip is_space (t ++ rest) ≡ t ++ rest
unfolding lstrip
lstrip-IsWord [] rest h = cc (h.not_empty)
lstrip-IsWord (c ∷ t) rest h = ground (arith, h.solid)

lstrip-join :
    (t : Text) (ts : List Text)
    → All IsWord (t ∷ ts)
    → lstrip is_space (join space (t ∷ ts)) ≡ join space (t ∷ ts)
unfolding join
lstrip-join t [] h =
    ap (lstrip is_space) (sym (append-nil t)) ∙ lstrip-IsWord t [] h.0 ∙ append-nil t
lstrip-join t (u ∷ ts) h = rw (append_assoc t space (join space (u ∷ ts))) (lstrip-IsWord t _ h.0)

-- Joined words are neither stripped nor empty.
pub strip-join :
    (t : Text) (ts : List Text)
    → All IsWord (t ∷ ts)
    → (strip (join space (t ∷ ts)) ≡ join space (t ∷ ts)) × (is_empty (join space (t ∷ ts)) ≡ false)
unfolding strip
strip-join t ts h = (rw (lstrip-join t ts h) (rstrip-join t ts h), join-not_empty t ts h)
