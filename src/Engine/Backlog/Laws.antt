-- ===== src/Engine/Backlog/Laws.antt =====
-- internal/crawler/engine.go: the backlog holds no key twice, and its set of keys is exact.
use duvycrawl.Shared.{
  ℕ, ◌≡◌, refl, sym, ap, subst, ◌∙◌, Bool, true, false, not, ◌&&◌, ◌||◌, List, [], ◌∷◌, ◌++◌,
  if◌then◌else◌, any, arith, Bool-cases, inl, inr,
}
use duvycrawl.Shared.Text.{Text, text_beq, text_beq_iff, member}
use duvycrawl.Url.{Std}
use duvycrawl.UrlFilter.{is_non_indexable_document_url}
use duvycrawl.Queue.Defs.{Job}
use duvycrawl.Render.{Reason, rendering_enabled}
use duvycrawl.Engine.State.{Config, BacklogItem, Backlog}
use duvycrawl.Engine.Backlog.{
  remove_key, key_of, push_render_backlog, enqueue_render_backlog, pop_items, pop_render_backlog,
}

member_nil : (k : Text) → member k [] ≡ false
unfolding member
member_nil k = refl

-- A call on the backlog: a page is put there, an item is put back, or the next one is taken.
pub data Call (F : Type 0) : Type 0 where
  enqueues : Config → ℕ → Job F → Text → Reason → Call F
  pushes : BacklogItem F → Call F
  pops : Call F

member-remove_key :
    (k key : Text) (keys : List Text)
    → member k (remove_key key keys) ≡ (not (text_beq key k) && member k keys)
unfolding member remove_key
member-remove_key k key [] = ground arith
member-remove_key k key (x ∷ xs) =
    ground
      (arith, member-remove_key k key xs, text_beq_iff key x, text_beq_iff key k, text_beq_iff k x)

module _ {F : Type 0} ⦃std : Std⦄ where
  abbrev pub holds : Text → List (BacklogItem F) → Bool
  holds k items = any (λ (i : BacklogItem F). text_beq k (key_of i)) items

  -- No key stands twice.
  abbrev pub Unique : List (BacklogItem F) → Type 0
  Unique [] = Unit
  Unique (i ∷ is) = (holds (key_of i) is ≡ false) × Unique is

  -- Each waiting page has one item, and the set holds the keys of the items and no others.
  pub record IsValid (b : Backlog F) : Type 0 where
    pub unique : Unique b.items
    pub exact : (k : Text) → member k b.queued ≡ holds k b.items

  unfoldable pub step : Backlog F → Call F → Backlog F
  unfolding enqueue_render_backlog push_render_backlog pop_render_backlog
  step b (enqueues cfg now job target reason) =
      (enqueue_render_backlog cfg now b job target reason).0
  step b (pushes item) = push_render_backlog b item
  step b pops = (pop_render_backlog b).0

  unfoldable pub run : Backlog F → List (Call F) → Backlog F
  unfolding step
  run b [] = b
  run b (c ∷ cs) = run (step b c) cs

  holds-append :
      (k : Text) (is js : List (BacklogItem F)) → holds k (is ++ js) ≡ (holds k is || holds k js)
  holds-append k [] js = refl
  holds-append k (i ∷ is) js = ground (arith, holds-append k is js)

  Unique-append_one :
      (is : List (BacklogItem F)) (item : BacklogItem F)
      → Unique is
      → holds (key_of item) is ≡ false
      → Unique (is ++ item ∷ [])
  Unique-append_one [] item u h = (refl, tt)
  Unique-append_one (i ∷ is) item u h = (
    ground (
      arith,
      u.0,
      holds-append (key_of i) is (item ∷ []),
      text_beq_iff (key_of i) (key_of item),
      text_beq_iff (key_of item) (key_of i),
    ),
    Unique-append_one is item u.1 (ground arith),
  )

  push-IsValid :
      (b : Backlog F) (item : BacklogItem F) → IsValid b → IsValid (push_render_backlog b item)
  unfolding push_render_backlog member
  push-IsValid b item v = elim (Bool-cases (member (key_of item) b.queued)) [
    | inl old ↦ rw old v
    | inr new ↦ rw new (record {
      unique = Unique-append_one b.items item v.unique (sym (v.exact (key_of item)) ∙ new);
      exact = λ k. ground (arith, v.exact k, holds-append k b.items (item ∷ []));
    })
  ]

  pop-IsValid :
      (is : List (BacklogItem F)) (b : Backlog F)
      → b.items ≡ is
      → IsValid b
      → IsValid (pop_items is b).0
  unfolding pop_items
  pop-IsValid [] b e v = v
  pop-IsValid (i ∷ is) b e v =
      let u : Unique (i ∷ is) = subst Unique e v.unique in
      record {
        unique = u.1;
        exact = λ k.
            member-remove_key k (key_of i) b.queued
            ∙ (ap (λ x. not (text_beq (key_of i) k) && x) (v.exact k ∙ ap (holds k) e)
                ∙ same k u.0);
      }
    where
      same :
          (k : Text)
          → holds (key_of i) is ≡ false
          → (not (text_beq (key_of i) k) && holds k (i ∷ is)) ≡ holds k is
      same k h = elim (Bool-cases (text_beq (key_of i) k)) [
        | inl e ↦
            let here : key_of i ≡ k = (text_beq_iff (key_of i) k).0 e in
            rw e (sym (ap (λ x. holds x is) (sym here) ∙ h))
        | inr n ↦ ground (arith, text_beq_iff (key_of i) k, text_beq_iff k (key_of i))
      ]

  if-IsValid :
      (c : Bool) (x y : Backlog F × Bool)
      → IsValid x.0
      → IsValid y.0
      → IsValid (if c then x else y).0
  if-IsValid true x y v w = v
  if-IsValid false x y v w = w

  step-IsValid : (b : Backlog F) (c : Call F) → IsValid b → IsValid (step b c)
  unfolding step enqueue_render_backlog
  step-IsValid b (enqueues cfg now job target reason) v =
      if-IsValid (not cfg.has_renderer || not (rendering_enabled cfg.rendering_cfg)) (b, false) _ v
        (if-IsValid (is_non_indexable_document_url target) (b, false) _ v (push-IsValid b _ v))
  step-IsValid b (pushes item) v = push-IsValid b item v
  step-IsValid b pops v = pop-IsValid b.items b refl v

  -- After any calls on the empty backlog, no page waits twice for one reason, and the set of
  -- queued keys is exactly the keys of the items.
  pub run-IsValid : (cs : List (Call F)) → IsValid (run (record { items = []; queued = [] }) cs)
  unfolding run
  run-IsValid cs =
      from (record { items = []; queued = [] }) cs (record { unique = tt; exact = member_nil })
    where
      from : (b : Backlog F) (cs : List (Call F)) → IsValid b → IsValid (run b cs)
      from b [] v = v
      from b (c ∷ cs) v = from (step b c) cs (step-IsValid b c v)
