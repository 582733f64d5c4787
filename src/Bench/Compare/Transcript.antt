-- ===== src/Bench/Compare/Transcript.antt =====
-- What the steps of the comparison send to lidb and to Postgres, followed in a log of the system's state.
use lidb.Base.{
  ℕ, zero, suc, ◌+◌, ◌≡◌, refl, sym, ap, ◌∙◌, List, [], ◌∷◌, ◌++◌, Option, Outcome, ok, err,
  append_assoc, append-nil, arith,
}
use lidb.Str.{Text}
use lidb.Errors.{Error}
use lidb.Action.{Action, pure, ◌>>=◌, bind-eq-done}
use lidb.Liorm.Embed.Binary.{Process}
use lidb.Bench.Lab.{Floats, for_range, timed, samples_of}
use lidb.Bench.Rig.{Rig, PgCall}
use lidb.Bench.Compare.{Counted, on_world}

-- A statement with the text on the program's input, and a call of psycopg2.
pub data Sent : Type 0 where
  to_lidb : (sql : Text) (input : Option Text) → Sent
  to_pg : PgCall → Sent

-- A program with a verb, a directory and a statement is sent the statement.
abbrev pub said : List Text → Option Text → List Sent
said (exe ∷ verb ∷ dir ∷ sql ∷ []) input = to_lidb sql input ∷ []
said _ input = []

-- The log of a state has in it, in their order, the statements of all calls that came back. The clock
-- and a new directory leave it alone.
pub record IsRecorded {W F : Type 0} (rig : Rig W F) (log : W → List Sent) : Type 0 where
  pub clock : (w : W) → log (rig.perf_counter w).1 ≡ log w
  pub new_dir : (path : Text) (w : W) → log (rig.make_dir path w) ≡ log w
  pub called :
      (args : List Text) (input : Option Text) (w : W) {proc : Process} {w' : W}
      → rig.call args input w ≡ (ok proc, w')
      → log w' ≡ log w ++ said args input
  pub pg_called :
      (call : PgCall) (w : W) {done_with : Unit} {w' : W}
      → rig.pg call w ≡ (ok done_with, w')
      → log w' ≡ log w ++ to_pg call ∷ []

-- What is sent, and the two counters behind it, from the counters before it.
abbrev pub Numbers : Type 0
Numbers = ℕ × ℕ

abbrev pub Script : Type 0
Script = Numbers → List Sent × Numbers

abbrev pub silent : Script
silent x = ([], x)

abbrev pub saying : List Sent → Script
saying l x = (l, x)

abbrev pub seq : Script → Script → Script
seq s t x = ((s x).0 ++ (t (s x).1).0, (t (s x).1).1)

abbrev pub iterate : ℕ → Script → Script
iterate zero s = silent
iterate (suc n) s = seq s (iterate n s)

pub iterate-add :
    (a b : ℕ) (s : Script) (x : Numbers) → seq (iterate a s) (iterate b s) x ≡ iterate (a + b) s x
iterate-add zero b s x = ap (λ (n : ℕ). iterate n s x) (zero_plus b)
  where
    zero_plus : (n : ℕ) → n ≡ 0 + n
    zero_plus n = omega arith
iterate-add (suc a) b s x =
    ap (λ (l : List Sent). (l, (iterate b s (iterate a s (s x).1).1).1))
      (append_assoc (s x).0 (iterate a s (s x).1).0 (iterate b s (iterate a s (s x).1).1).0)
    ∙ ap (λ (r : List Sent × Numbers). ((s x).0 ++ r.0, r.1)) (iterate-add a b s (s x).1)
    ∙ ap (λ (n : ℕ). iterate n s x) (suc_plus a b)
  where
    suc_plus : (n m : ℕ) → suc (n + m) ≡ suc n + m
    suc_plus n m = omega arith

module _ {W : Type 0} (log : W → List Sent) where
  -- A step that returns has sent the statements of a list.
  abbrev pub Says : {A : Type 0} → List Sent → Action W A → Type 0
  Says {A} l m = (w : W) (a : A) (w' : W) → m w ≡ (ok a, w') → log w' ≡ log w ++ l

  pub pure-Says : {A : Type 0} (o : Outcome Error A) → Says [] (pure o)
  pure-Says o w a w' h = let same : w' ≡ w = cc h in ap log same ∙ sym (append-nil (log w))

  pub bind-Says :
      {A B : Type 0} (l l' : List Sent) (m : Action W A) (f : A → Action W B)
      → Says l m
      → ((a : A) → Says l' (f a))
      → Says (l ++ l') (m >>= f)
  bind-Says l l' m f h k w b w' e =
      let (a, t, first, rest) = bind-eq-done m f w e in
      k a t b w' rest ∙ ap (λ (x : List Sent). x ++ l') (h w a t first) ∙ append_assoc (log w) l l'

  abbrev pub numbers : Counted W → Numbers
  numbers c = (c.pub_n, c.pg_pub_n)

  -- A step that returns has followed a script.
  abbrev pub Followed : Script → Counted W → Counted W → Type 0
  Followed s c c' =
      (log c'.world ≡ log c.world ++ (s (numbers c)).0) × (numbers c' ≡ (s (numbers c)).1)

  abbrev pub Follows : {A : Type 0} → Script → Action (Counted W) A → Type 0
  Follows {A} s m = (c : Counted W) (a : A) (c' : Counted W) → m c ≡ (ok a, c') → Followed s c c'

  pub Follows-cast :
      {A : Type 0} {s t : Script} (m : Action (Counted W) A)
      → ((x : Numbers) → s x ≡ t x)
      → Follows s m
      → Follows t m
  Follows-cast m same h c a c' e =
      let (l, n) = h c a c' e in
      (
        l ∙ ap (λ (r : List Sent × Numbers). log c.world ++ r.0) (same (numbers c)),
        n ∙ ap (λ (r : List Sent × Numbers). r.1) (same (numbers c)),
      )

  pub pure-Follows : {A : Type 0} (o : Outcome Error A) → Follows silent (pure o)
  pure-Follows o c a c' h =
      let same : c' ≡ c = cc h in
      (ap (λ (d : Counted W). log d.world) same ∙ sym (append-nil (log c.world)), ap numbers same)

  pub bind-Follows :
      {A B : Type 0} (s t : Script) (m : Action (Counted W) A) (f : A → Action (Counted W) B)
      → Follows s m
      → ((a : A) → Follows t (f a))
      → Follows (seq s t) (m >>= f)
  bind-Follows s t m f h k c b c' e =
      let (a, d, first, rest) = bind-eq-done m f c e in
      let (l, n) = h c a d first in
      let (l', n') = k a d b c' rest in
      (
        l'
            ∙ ap (λ (x : Numbers). log d.world ++ (t x).0) n
            ∙ ap (λ (x : List Sent). x ++ (t (s (numbers c)).1).0) l
            ∙ append_assoc (log c.world) (s (numbers c)).0 (t (s (numbers c)).1).0,
        n' ∙ ap (λ (x : Numbers). (t x).1) n,
      )

  -- A last step that sends nothing.
  pub bind-silent :
      {A B : Type 0} (s : Script) (m : Action (Counted W) A) (f : A → Action (Counted W) B)
      → Follows s m
      → ((a : A) → Follows silent (f a))
      → Follows s (m >>= f)
  bind-silent s m f h k =
      Follows-cast (m >>= f) (λ x. ap (λ (l : List Sent). (l, (s x).1)) (append-nil (s x).0))
        (bind-Follows s silent m f h k)

  pub on_world-Follows :
      {A : Type 0} (l : List Sent) (m : Action W A) → Says l m → Follows (saying l) (on_world m)
  on_world-Follows {A} l m h c a c' e = go (m c.world) refl e
    where
      go :
          (r : Outcome Error A × W)
          → m c.world ≡ r
          → ◌≡◌ {A = Outcome Error A × Counted W} (r.0, record c { world = r.1 }) (ok a, c')
          → Followed (saying l) c c'
      go (ok b, w) ran p =
          let same : c' ≡ record c { world = w } = cc p in
          (ap (λ (d : Counted W). log d.world) same ∙ h c.world b w ran, ap numbers same)
      go (err x, w) ran p = cc

  pub for_range-Follows :
      (s : Script) (n : ℕ) (body : Action (Counted W) Unit)
      → Follows s body
      → Follows (iterate n s) (for_range n body)
  unfolding for_range
  for_range-Follows s zero body h = pure-Follows (ok tt)
  for_range-Follows s (suc n) body h =
      bind-Follows s (iterate n s) body (λ _. for_range n body) h
        (λ _. for_range-Follows s n body h)

  module _ {F : Type 0} (perf_counter : Action W F) (quiet : Says [] perf_counter)
      (floats : Floats F) where
    timed-Follows :
        (s : Script) (call : Action (Counted W) Unit)
        → Follows s call
        → Follows s (timed (on_world perf_counter) floats call)
    unfolding timed
    timed-Follows s call h =
        bind-Follows silent s (on_world perf_counter) _ (on_world-Follows [] perf_counter quiet)
          λ t0. bind-silent s call _ h λ _.
            bind-silent silent (on_world perf_counter) _ (on_world-Follows [] perf_counter quiet)
              λ t1. pure-Follows (ok (floats.thousandfold (floats.minus t1 t0)))

    pub samples_of-Follows :
        (s : Script) (n : ℕ) (call : Action (Counted W) Unit)
        → Follows s call
        → Follows (iterate n s) (samples_of (on_world perf_counter) floats n call)
    unfolding samples_of
    samples_of-Follows s zero call h = pure-Follows (ok [])
    samples_of-Follows s (suc n) call h =
        bind-Follows s (iterate n s) (timed (on_world perf_counter) floats call) _
          (timed-Follows s call h)
          λ sample.
            bind-silent (iterate n s) (samples_of (on_world perf_counter) floats n call) _
              (samples_of-Follows s n call h) λ rest. pure-Follows (ok (sample ∷ rest))
