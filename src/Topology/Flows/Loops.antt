-- ===== src/Topology/Flows/Loops.antt =====
-- The nested loops keep what each consideration of a flow keeps, and get what one of them gets.
use arodonata.Common.{inl, inr, refl, sym, List, [], ◌∷◌, subst}
use arodonata.Common.Members.{IsIn}
use arodonata.Topology.Locate.{Endpoint, InterfaceMatch}
use arodonata.Topology.Flows.{
  Wanted, Flow, Found, flow_of, consider, each_dst_match, each_src_match, each_destination,
  each_source,
}

module _ (w : Wanted) (P : Found → Type 0) where
  -- The consideration keeps the property.
  abbrev pub Keeps : Endpoint → Endpoint → InterfaceMatch → InterfaceMatch → Type 0
  Keeps s d src dst = (found : Found) → P found → P (consider w (flow_of s d src dst) found)

  each_dst_match-keeps :
      (s d : Endpoint) (src : InterfaceMatch) (dsts : List InterfaceMatch)
      → ((dst : InterfaceMatch) → IsIn dst dsts → Keeps s d src dst)
      → (found : Found) → P found
      → P (each_dst_match w s d src dsts found)
  unfolding each_dst_match
  each_dst_match-keeps s d src [] keeps found p = p
  each_dst_match-keeps s d src (dst ∷ dsts) keeps found p =
      each_dst_match-keeps s d src dsts (λ m there. keeps m (inr there))
        (consider w (flow_of s d src dst) found) (keeps dst (inl refl) found p)

  each_src_match-keeps :
      (s d : Endpoint) (srcs dsts : List InterfaceMatch)
      → ((src dst : InterfaceMatch) → IsIn src srcs → IsIn dst dsts → Keeps s d src dst)
      → (found : Found) → P found
      → P (each_src_match w s d srcs dsts found)
  unfolding each_src_match
  each_src_match-keeps s d [] dsts keeps found p = p
  each_src_match-keeps s d (src ∷ srcs) dsts keeps found p =
      each_src_match-keeps s d srcs dsts (λ m n there. keeps m n (inr there))
        (each_dst_match w s d src dsts found)
        (each_dst_match-keeps s d src dsts (λ n. keeps src n (inl refl)) found p)

  module _ (locate : Endpoint → List InterfaceMatch) where
    each_destination-keeps :
        (s : Endpoint) (srcs : List InterfaceMatch) (ds : List Endpoint)
        → ((d : Endpoint) (src dst : InterfaceMatch)
            → IsIn d ds
            → IsIn src srcs
            → IsIn dst (locate d)
            → Keeps s d src dst)
        → (found : Found) → P found
        → P (each_destination w locate s srcs ds found)
    unfolding each_destination
    each_destination-keeps s srcs [] keeps found p = p
    each_destination-keeps s srcs (d ∷ ds) keeps found p =
        each_destination-keeps s srcs ds (λ e m n there. keeps e m n (inr there))
          (each_src_match w s d srcs (locate d) found)
          (each_src_match-keeps s d srcs (locate d) (λ m n. keeps d m n (inl refl)) found p)

    pub each_source-keeps :
        (ss ds : List Endpoint)
        → ((s d : Endpoint) (src dst : InterfaceMatch)
            → IsIn s ss
            → IsIn d ds
            → IsIn src (locate s)
            → IsIn dst (locate d)
            → Keeps s d src dst)
        → (found : Found) → P found
        → P (each_source w locate ss ds found)
    unfolding each_source
    each_source-keeps [] ds keeps found p = p
    each_source-keeps (s ∷ ss) ds keeps found p =
        each_source-keeps ss ds (λ e d m n there. keeps e d m n (inr there))
          (each_destination w locate s (locate s) ds found)
          (each_destination-keeps s (locate s) ds (λ d m n. keeps s d m n (inl refl)) found p)

  -- A property that every consideration keeps is got when one of the considerations gets it.
  module _ (keeps : (f : Flow) (found : Found) → P found → P (consider w f found)) (s d : Endpoint)
      (src dst : InterfaceMatch)
      (gets : (found : Found) → P (consider w (flow_of s d src dst) found)) where
    each_dst_match-gets :
        (dsts : List InterfaceMatch)
        → IsIn dst dsts
        → (found : Found) → P (each_dst_match w s d src dsts found)
    unfolding each_dst_match
    each_dst_match-gets [] is_in found = absurd is_in
    each_dst_match-gets (n ∷ dsts) is_in found = elim is_in [
      | inl here ↦
          each_dst_match-keeps s d src dsts (λ m _. keeps (flow_of s d src m))
            (consider w (flow_of s d src n) found)
            (subst (λ m. P (consider w (flow_of s d src m) found)) (sym here) (gets found))
      | inr there ↦ each_dst_match-gets dsts there (consider w (flow_of s d src n) found)
    ]

    each_src_match-gets :
        (srcs dsts : List InterfaceMatch)
        → IsIn src srcs
        → IsIn dst dsts
        → (found : Found) → P (each_src_match w s d srcs dsts found)
    unfolding each_src_match
    each_src_match-gets [] dsts is_in is_in' found = absurd is_in
    each_src_match-gets (m ∷ srcs) dsts is_in is_in' found = elim is_in [
      | inl here ↦
          each_src_match-keeps s d srcs dsts (λ k n _ _. keeps (flow_of s d k n))
            (each_dst_match w s d m dsts found)
            (subst (λ k. P (each_dst_match w s d k dsts found)) (sym here)
              (each_dst_match-gets dsts is_in' found))
      | inr there ↦ each_src_match-gets srcs dsts there is_in' (each_dst_match w s d m dsts found)
    ]

    module _ (locate : Endpoint → List InterfaceMatch) (src_in : IsIn src (locate s))
        (dst_in : IsIn dst (locate d)) where
      each_destination-gets :
          (srcs : List InterfaceMatch) (ds : List Endpoint)
          → IsIn src srcs
          → IsIn d ds
          → (found : Found) → P (each_destination w locate s srcs ds found)
      unfolding each_destination
      each_destination-gets srcs [] is_in d_in found = absurd d_in
      each_destination-gets srcs (e ∷ ds) is_in d_in found = elim d_in [
        | inl here ↦
            each_destination-keeps locate s srcs ds (λ e m n _ _ _. keeps (flow_of s e m n))
              (each_src_match w s e srcs (locate e) found)
              (subst (λ e. P (each_src_match w s e srcs (locate e) found)) (sym here)
                (each_src_match-gets srcs (locate d) is_in dst_in found))
        | inr there ↦
            each_destination-gets srcs ds is_in there (each_src_match w s e srcs (locate e) found)
      ]

      pub each_source-gets :
          (ss ds : List Endpoint)
          → IsIn s ss
          → IsIn d ds
          → (found : Found) → P (each_source w locate ss ds found)
      unfolding each_source
      each_source-gets [] ds s_in d_in found = absurd s_in
      each_source-gets (e ∷ ss) ds s_in d_in found = elim s_in [
        | inl here ↦
            each_source-keeps locate ss ds (λ e d m n _ _ _ _. keeps (flow_of e d m n))
              (each_destination w locate e (locate e) ds found)
              (subst (λ e. P (each_destination w locate e (locate e) ds found)) (sym here)
                (each_destination-gets (locate s) ds src_in d_in found))
        | inr there ↦
            each_source-gets ss ds there d_in (each_destination w locate e (locate e) ds found)
      ]
