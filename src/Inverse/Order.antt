-- ===== src/Inverse/Order.antt =====
-- Which operations a template has, and in which order.
use mathlib.Core.List.{append_assoc}
use arodonata.Common.{
  String, Bool, true, false, Option, none, some, List, [], ◌∷◌, ◌++◌, reverse, if◌then◌else◌, ◌≡◌,
  inl, inr, refl, ap, ◌∙◌, Option-cases,
}
use arodonata.Common.Json.{Value, Fields}
use arodonata.Inverse.{
  PlannedAction, ActionResult, Bucket, objects, services, groups, rules, inverted, Target, emit,
  emit_all, target_of, Group,
}

-- The operations of the actions that are inverted, in order, with their buckets.
abbrev pub inversions :
    (Value → String) → Option (List ActionResult) → List PlannedAction → List (Bucket × Fields)
inversions show results [] = []
inversions show results (a ∷ more) =
    let rest = inversions show results more in
    elim (inverted show results a) [ none ↦ rest | some o ↦ o ∷ rest ]

abbrev is_bucket : Bucket → Bucket → Bool
is_bucket objects objects = true
is_bucket services services = true
is_bucket groups groups = true
is_bucket rules rules = true
is_bucket _ _ = false

abbrev pub all_ops : List (Bucket × Fields) → List Fields
all_ops [] = []
all_ops ((b, op) ∷ more) = op ∷ all_ops more

abbrev pub ops_in : Bucket → List (Bucket × Fields) → List Fields
ops_in b [] = []
ops_in b ((c, op) ∷ more) = let rest = ops_in b more in if is_bucket b c then op ∷ rest else rest

-- After some operations were emitted, the target has them at the end of its lists, and the same names.
abbrev Emitted : Target → List (Bucket × Fields) → Target → Type 0
Emitted t os t' =
    (t'.operations ≡ t.operations ++ all_ops os)
    × (t'.objects_bucket ≡ t.objects_bucket ++ ops_in objects os)
    × (t'.services_bucket ≡ t.services_bucket ++ ops_in services os)
    × (t'.groups_bucket ≡ t.groups_bucket ++ ops_in groups os)
    × (t'.rules_bucket ≡ t.rules_bucket ++ ops_in rules os)
    × (t'.mgmt_name ≡ t.mgmt_name)
    × (t'.domain ≡ t.domain)

append_nil : (xs : List Fields) → xs ≡ xs ++ []
append_nil [] = refl
append_nil (x ∷ xs) = ap (◌∷◌ x) (append_nil xs)

snoc_append : (xs ys zs : List Fields) (x : Fields) → ys ≡ xs ++ x ∷ [] → ys ++ zs ≡ xs ++ x ∷ zs
snoc_append xs ys zs x e = rw (e, append_assoc xs (x ∷ []) zs) refl

Emitted-nothing : (t : Target) → Emitted t [] t
Emitted-nothing t = (
  append_nil t.operations,
  append_nil t.objects_bucket,
  append_nil t.services_bucket,
  append_nil t.groups_bucket,
  append_nil t.rules_bucket,
  refl,
  refl,
)

Emitted-more :
    (b : Bucket) (op : Fields) (t t' : Target) (os : List (Bucket × Fields))
    → Emitted (emit b op t) os t'
    → Emitted t ((b, op) ∷ os) t'
unfolding emit
Emitted-more objects op t t' os (o, x, s, g, r, m, d) = (
  o ∙ append_assoc t.operations (op ∷ []) (all_ops os),
  x ∙ append_assoc t.objects_bucket (op ∷ []) (ops_in objects os),
  s,
  g,
  r,
  m,
  d,
)
Emitted-more services op t t' os (o, x, s, g, r, m, d) = (
  o ∙ append_assoc t.operations (op ∷ []) (all_ops os),
  x,
  s ∙ append_assoc t.services_bucket (op ∷ []) (ops_in services os),
  g,
  r,
  m,
  d,
)
Emitted-more groups op t t' os (o, x, s, g, r, m, d) = (
  o ∙ append_assoc t.operations (op ∷ []) (all_ops os),
  x,
  s,
  g ∙ append_assoc t.groups_bucket (op ∷ []) (ops_in groups os),
  r,
  m,
  d,
)
Emitted-more rules op t t' os (o, x, s, g, r, m, d) = (
  o ∙ append_assoc t.operations (op ∷ []) (all_ops os),
  x,
  s,
  g,
  r ∙ append_assoc t.rules_bucket (op ∷ []) (ops_in rules os),
  m,
  d,
)

emit_all-Emitted :
    (show : Value → String) (results : Option (List ActionResult)) (actions : List PlannedAction)
    (t : Target)
    → Emitted t (inversions show results actions) (emit_all show results actions t)
unfolding emit_all
emit_all-Emitted show results [] t = Emitted-nothing t
emit_all-Emitted show results (a ∷ more) t = elim (Option-cases (inverted show results a)) [
  | inl nothing ↦ rw (nothing, emit_all, inversions) (emit_all-Emitted show results more t)
  | inr ((b, op), gives) ↦
      rw (gives, emit_all, inversions)
        (Emitted-more b op t _ _ (emit_all-Emitted show results more (emit b op t)))
]

-- The operations of a domain are what its actions are inverted to, the last action first, and each of
-- the four buckets has those of its kind in the same order.
pub target_of-operations :
    (show : Value → String) (results : Option (List ActionResult)) (g : Group)
    → ((target_of show results g).operations
        ≡ all_ops (inversions show results (reverse g.actions)))
      × ((target_of show results g).objects_bucket
          ≡ ops_in objects (inversions show results (reverse g.actions)))
      × ((target_of show results g).services_bucket
          ≡ ops_in services (inversions show results (reverse g.actions)))
      × ((target_of show results g).groups_bucket
          ≡ ops_in groups (inversions show results (reverse g.actions)))
      × ((target_of show results g).rules_bucket
          ≡ ops_in rules (inversions show results (reverse g.actions)))
unfolding target_of
target_of-operations show results g =
    let (o, x, s, gr, r, m, d) = emit_all-Emitted show results (reverse g.actions) _ in
    (o, x, s, gr, r)
