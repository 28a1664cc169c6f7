-- ===== src/Externals/Laws.antt =====
-- What holds of every sequence of calls, for an external client that keeps to the laws.
use provider_rabbitmq.Prelude.{◌≡◌, ◌⊎◌, inl, inr, refl, sym, ap, ◌∙◌, true, false, some}
use provider_rabbitmq.Handler.{Untouched, State, final}
use provider_rabbitmq.Meta.{ObjectMeta, is_crossplane_managed}
use provider_rabbitmq.Externals.{
  External, Step, observing, creating, updating, deleting, disconnecting, elsewhere, edited,
  Reaches, here, next,
}

-- The resource is there and marked as managed.
abbrev pub Claimed : {Cr W : Type 0} → (Cr → ObjectMeta) → State Cr W → Type 0
Claimed {Cr = Cr} meta_of s =
    (cr : Cr) × (s.cr ≡ some cr) × (is_crossplane_managed (meta_of cr) ≡ true)

-- A resource after a method that marks it at most.
abbrev pub MarkedAtMost : {Cr W : Type 0} → (Cr → ObjectMeta) → Cr → State Cr W → Type 0
MarkedAtMost {Cr = Cr} meta_of cr s =
    (cr' : Cr) × (s.cr ≡ some cr')
    × ((meta_of cr' ≡ meta_of cr) ⊎ (is_crossplane_managed (meta_of cr') ≡ true))

-- An observation writes nothing to the server and leaves the metadata alone, and it does not touch a
-- resource that is not marked as managed; a creation marks the resource at most; an update, a
-- deletion and a disconnection leave it as it is.
pub record ExternalLaws {Cr W : Type 0} (x : External Cr W) (meta_of : Cr → ObjectMeta)
    : Type 0 where
  pub observe_reads :
      (s : State Cr W)
      → ((final (x.observe s)).world ≡ s.world)
        × ((final (x.observe s)).open_bodies ≡ s.open_bodies)
  pub observe_meta :
      (s : State Cr W) (cr : Cr)
      → s.cr ≡ some cr
      → (cr' : Cr) × ((final (x.observe s)).cr ≡ some cr') × (meta_of cr' ≡ meta_of cr)
  pub observe_unmanaged :
      (s : State Cr W) (cr : Cr)
      → s.cr ≡ some cr
      → is_crossplane_managed (meta_of cr) ≡ false
      → Untouched s (x.observe s)
  pub create_marks :
      (s : State Cr W) (cr : Cr) → s.cr ≡ some cr → MarkedAtMost meta_of cr (final (x.create s))
  pub update_keeps : (s : State Cr W) → (final (x.update s)).cr ≡ s.cr
  pub delete_keeps : (s : State Cr W) → (final (x.delete s)).cr ≡ s.cr
  pub disconnect_keeps : (s : State Cr W) → final (x.disconnect s) ≡ s

-- The methods that write close the body of the answer, on every path, and a creation and an update do
-- the same to the server.
pub record WritingLaws {Cr W : Type 0} (x : External Cr W) : Type 0 where
  pub closed :
      (s : State Cr W)
      → ((final (x.create s)).open_bodies ≡ s.open_bodies)
        × ((final (x.update s)).open_bodies ≡ s.open_bodies)
        × ((final (x.delete s)).open_bodies ≡ s.open_bodies)
  pub create_as_update : (s : State Cr W) → (final (x.create s)).world ≡ (final (x.update s)).world

module _ {Cr W : Type 0} (x : External Cr W) (meta_of : Cr → ObjectMeta)
    (laws : ExternalLaws x meta_of) where
  kept-Claimed : (s t : State Cr W) → t.cr ≡ s.cr → Claimed meta_of s → Claimed meta_of t
  kept-Claimed s t e (cr, here_it_is, m) = (cr, e ∙ here_it_is, m)

  same_meta-Claimed :
      (t : State Cr W) (cr cr' : Cr)
      → t.cr ≡ some cr'
      → meta_of cr' ≡ meta_of cr
      → is_crossplane_managed (meta_of cr) ≡ true
      → Claimed meta_of t
  same_meta-Claimed t cr cr' there same m = (cr', there, ap (λ o. is_crossplane_managed o) same ∙ m)

  marked-Claimed :
      (t : State Cr W) (cr : Cr)
      → MarkedAtMost meta_of cr t
      → is_crossplane_managed (meta_of cr) ≡ true
      → Claimed meta_of t
  marked-Claimed t cr (cr', there, inl same) m = same_meta-Claimed t cr cr' there same m
  marked-Claimed t cr (cr', there, inr marked) m = (cr', there, marked)

  Step-Claimed : {s t : State Cr W} → Step x meta_of s t → Claimed meta_of s → Claimed meta_of t
  Step-Claimed (observing s) (cr, there, m) =
      let (cr', still, same) = laws.observe_meta s cr there in
      same_meta-Claimed (final (x.observe s)) cr cr' still same m
  Step-Claimed (creating s) (cr, there, m) =
      marked-Claimed (final (x.create s)) cr (laws.create_marks s cr there) m
  Step-Claimed (updating s) c = kept-Claimed s (final (x.update s)) (laws.update_keeps s) c
  Step-Claimed (deleting s) c = kept-Claimed s (final (x.delete s)) (laws.delete_keeps s) c
  Step-Claimed (disconnecting s) c =
      kept-Claimed s (final (x.disconnect s)) (ap (λ t. t.cr) (laws.disconnect_keeps s)) c
  Step-Claimed (elsewhere s w) c = c
  Step-Claimed (edited s cr cr' there same) (cr1, there1, m) =
      let e : some cr ≡ some cr1 = sym there ∙ there1 in
      (cr', refl, ap (λ o. is_crossplane_managed o) same ∙ cc)

  -- A resource that is marked as managed stays so, through any sequence of calls on its external
  -- client, of changes to the server by others, and of edits of its spec.
  pub Reaches-Claimed :
      {s t : State Cr W} → Reaches x meta_of s t → Claimed meta_of s → Claimed meta_of t
  Reaches-Claimed here c = c
  Reaches-Claimed (next r step) c = Step-Claimed step (Reaches-Claimed r c)

  module _ (closes : WritingLaws x) where
    Step-open_bodies : {s t : State Cr W} → Step x meta_of s t → t.open_bodies ≡ s.open_bodies
    Step-open_bodies (observing s) = (laws.observe_reads s).1
    Step-open_bodies (creating s) = (closes.closed s).0
    Step-open_bodies (updating s) = (closes.closed s).1
    Step-open_bodies (deleting s) = (closes.closed s).2
    Step-open_bodies (disconnecting s) = ap (λ t. t.open_bodies) (laws.disconnect_keeps s)
    Step-open_bodies (elsewhere s w) = refl
    Step-open_bodies (edited s cr cr' there same) = refl

    -- Any sequence of calls on an external client that closes its bodies, of changes by others and
    -- of edits leaves as many response bodies open as there were before.
    pub Reaches-open_bodies :
        {s t : State Cr W} → Reaches x meta_of s t → t.open_bodies ≡ s.open_bodies
    Reaches-open_bodies here = refl
    Reaches-open_bodies (next r step) = Step-open_bodies step ∙ Reaches-open_bodies r
