-- ===== src/Core/Delegation/Chain.antt =====
-- Which chains there are.
use forgeguard.Base.{◌≡◌, List, [], ◌∷◌, All}
use forgeguard.Core.Segment.{Segment, segment_eq}
use forgeguard.Core.Fgrn.{Fgrn, principal, kind_eq}

abbrev pub IsChain : List Fgrn → Type 0
IsChain [] = ⊥
IsChain (link ∷ []) = ⊥
IsChain (first ∷ second ∷ links) =
    All (λ link. link.kind ≡ principal) (first ∷ second ∷ links)
    × All (λ link. link.organization ≡ first.organization) (second ∷ links)
