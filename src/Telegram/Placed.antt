-- ===== src/Telegram/Placed.antt =====
-- The documents that internal/transport/telegram/format.go is given: which nodes stand where.
use yaad_grove.Base.{Bool, true, String, ◌≡◌}
use yaad_grove.Telegram.Markdown.{Kind, Node, node, Nodes, no_nodes, next}

-- A document as the parser builds it: every list item stands in a list. Its automatic links lead to
-- addresses of the set.
module _ (Address : String → Type 0) where
  abbrev Here : Bool → Kind → Type 0
  Here inside (Kind.auto_link url) = Address url
  Here inside Kind.list_item = inside ≡ true
  Here inside k = Unit

  abbrev within_list : Kind → Bool → Bool
  within_list (Kind.list ordered start) inside = true
  within_list k inside = inside

  unfoldable mutual
    pub IsPlaced : Bool → Node → Type 0
    IsPlaced inside (node k ns) = Here inside k × ArePlaced (within_list k inside) ns

    pub ArePlaced : Bool → Nodes → Type 0
    ArePlaced inside no_nodes = Unit
    ArePlaced inside (next n ns) = IsPlaced inside n × ArePlaced inside ns
