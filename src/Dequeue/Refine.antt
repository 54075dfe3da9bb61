-- ===== src/Dequeue/Refine.antt =====
-- A queue of include/lc/dequeue.h against a list of at most `max_size - 1` pointers, bottom first.
use lc.Base.{
  ℕ, ◌+◌, ◌-◌, ◌%◌, ◌<◌, ◌≡◌, refl, ap, ◌∙◌, List, [], ◌∷◌, ◌++◌, Option, none, some, arith, ltb,
  if◌then◌else◌, length, get_or, drop_last, length-append, length-set, length-replicate,
  drop_last-snoc, get_or-append_end, bit_and,
}
use lc.Base.Bits.{bit_and-mask}
use lc.Ring.{
  held, length-window, count-lt, count_full, held-push, held-empty, held-pop_top, held-pop_bot,
}
use lc.Dequeue.{Dequeue, max_size, dq_init, dq_push_top, dq_pop_top, dq_pop_bot}

pub record IsValid (d : Dequeue) : Type 0 where
  pub sized : length d.container ≡ max_size
  pub top_in : d.top < max_size
  pub bot_in : d.bot < max_size

-- What the queue holds, bottom first.
abbrev pub contents : Dequeue → List ℕ
contents d = held d.container max_size d.top d.bot

-- The abstract operations.
unfoldable pub push : List ℕ → ℕ → Option (List ℕ)
push l p = if ltb (length l + 1) max_size then some (l ++ p ∷ []) else none

unfoldable pub pop_top : List ℕ → ℕ × List ℕ
pop_top l = (get_or l (length l - 1) 0, drop_last l)

unfoldable pub pop_bot : List ℕ → ℕ × List ℕ
pop_bot [] = (0, [])
pop_bot (x ∷ l) = (x, l)

pop_top-nil : pop_top [] ≡ (0, [])
unfolding pop_top
pop_top-nil = refl

pop_top-snoc : (l : List ℕ) (x : ℕ) → pop_top (l ++ x ∷ []) ≡ (x, l)
unfolding pop_top
pop_top-snoc l x =
    let e : length (l ++ x ∷ []) - 1 ≡ length l = omega (arith, length-append l (x ∷ [])) in
    rw (e, get_or-append_end, drop_last-snoc)

mask_top : (a : ℕ) → bit_and a (max_size - 1) ≡ a % max_size
mask_top a = bit_and-mask 12 a

pub dq_init-IsValid : IsValid dq_init × (contents dq_init ≡ [])
unfolding dq_init
dq_init-IsValid = (
  record {
    sized = length-replicate {A = ℕ} max_size 0;
    top_in = omega arith;
    bot_in = omega arith;
  },
  refl,
)

-- Both stop the process, or the queue is valid and holds the list.
abbrev pub Agrees : Option Dequeue → Option (List ℕ) → Type 0
Agrees none none = Unit
Agrees (some d) (some l) = IsValid d × (contents d ≡ l)
Agrees none (some l) = ⊥
Agrees (some d) none = ⊥

-- `dq_push_top` exits exactly when the list is full, and else appends the pointer at the top; the
-- invariant is kept.
pub dq_push_top_refines :
    {d : Dequeue} (p : ℕ) → IsValid d → Agrees (dq_push_top d p) (push (contents d) p)
unfolding dq_push_top push
dq_push_top_refines {d} p v =
    rw (mask_top, length-window)
      (ground (
        arith,
        length-set d.container d.top p,
        count-lt max_size d.top d.bot v.top_in v.bot_in,
        count_full max_size d.top d.bot v.top_in v.bot_in,
        held-push max_size d.top d.bot v.top_in v.bot_in d.container p v.sized,
      ))

-- `dq_pop_top` takes the last pointer, or returns NULL from an empty queue.
pub dq_pop_top_refines :
    {d : Dequeue}
    → IsValid d
    → IsValid (dq_pop_top d).1
      × (((dq_pop_top d).0, contents (dq_pop_top d).1) ≡ pop_top (contents d))
unfolding dq_pop_top
dq_pop_top_refines {d} v = rw mask_top (
    ground (
      arith,
      held-empty max_size d.top d.bot v.top_in v.bot_in d.container,
      held-pop_top max_size d.top d.bot v.top_in v.bot_in d.container,
      pop_top-nil,
      pop_top-snoc (held d.container max_size ((d.top + max_size - 1) % max_size) d.bot)
          (get_or d.container ((d.top + max_size - 1) % max_size) 0),
    ))

-- `dq_pop_bot` takes the first pointer, or returns NULL from an empty queue.
pub dq_pop_bot_refines :
    {d : Dequeue}
    → IsValid d
    → IsValid (dq_pop_bot d).1
      × (((dq_pop_bot d).0, contents (dq_pop_bot d).1) ≡ pop_bot (contents d))
unfolding dq_pop_bot pop_bot
dq_pop_bot_refines {d} v = rw mask_top (
    ground (
      arith,
      held-empty max_size d.top d.bot v.top_in v.bot_in d.container,
      held-pop_bot max_size d.top d.bot v.top_in v.bot_in d.container,
    ))

-- A client's calls in order, and what each returns; `none` is the exit, and nothing follows it.
pub data Op : Type 0 where
  put : ℕ → Op
  take_top take_bot : Op

pub run : Dequeue → List Op → List (Option ℕ)
run d [] = []
run d (put p ∷ ops) = elim (dq_push_top d p) [ none ↦ none ∷ [] | some d' ↦ some p ∷ run d' ops ]
run d (take_top ∷ ops) = let (x, d') = dq_pop_top d in some x ∷ run d' ops
run d (take_bot ∷ ops) = let (x, d') = dq_pop_bot d in some x ∷ run d' ops

pub run_list : List ℕ → List Op → List (Option ℕ)
run_list l [] = []
run_list l (put p ∷ ops) = elim (push l p) [ none ↦ none ∷ [] | some l' ↦ some p ∷ run_list l' ops ]
run_list l (take_top ∷ ops) = let (x, l') = pop_top l in some x ∷ run_list l' ops
run_list l (take_bot ∷ ops) = let (x, l') = pop_bot l in some x ∷ run_list l' ops

-- Results that agree are followed by the same replies, if the queues and lists that agree are.
Agrees-eq :
    (p : ℕ) (f : Dequeue → List (Option ℕ)) (g : List ℕ → List (Option ℕ))
    → ((d : Dequeue) → IsValid d → f d ≡ g (contents d))
    → (r : Option Dequeue) (l : Option (List ℕ)) → Agrees r l
    → elim r as (λ _. List (Option ℕ)) [ none ↦ none ∷ [] | some d ↦ some p ∷ f d ]
      ≡ elim l as (λ _. List (Option ℕ)) [ none ↦ none ∷ [] | some l' ↦ some p ∷ g l' ]
Agrees-eq p f g same none none a = refl
Agrees-eq p f g same none (some l) a = absurd a
Agrees-eq p f g same (some d) none a = absurd a
Agrees-eq p f g same (some d) (some l) a = ap (λ r. some p ∷ r) (same d a.0 ∙ ap g a.1)

-- No sequence of calls tells a valid queue from the bounded list of its contents.
pub run_refines : (ops : List Op) {d : Dequeue} → IsValid d → run d ops ≡ run_list (contents d) ops
unfolding run run_list
run_refines [] v = refl
run_refines (put p ∷ ops) {d} v =
    Agrees-eq p (λ d'. run d' ops) (λ l. run_list l ops) (λ d' v'. run_refines ops v')
      (dq_push_top d p) (push (contents d) p) (dq_push_top_refines p v)
run_refines (take_top ∷ ops) {d} v =
    rw (run_refines ops (dq_pop_top_refines v).0, ← (dq_pop_top_refines v).1)
run_refines (take_bot ∷ ops) {d} v =
    rw (run_refines ops (dq_pop_bot_refines v).0, ← (dq_pop_bot_refines v).1)
