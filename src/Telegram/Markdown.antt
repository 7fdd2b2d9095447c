-- ===== src/Telegram/Markdown.antt =====
-- What internal/transport/telegram/format.go reads of a parsed Markdown document: goldmark's syntax
-- tree, and `ast.Walk`, which calls a visitor before and after the children of each node.
use yaad_grove.Base.{ℕ, Bool, true, false, String, Option, none, some, List, ◌≡◌}

-- The node types that `render` tells apart, with the fields that it reads. A text's segment, a code
-- block's lines and an HTML block's lines with its closure line are given as their source text.
pub data Kind : Type 0 where
  text : String → Bool → Bool → Kind
  string_ : String → Kind
  auto_link : String → Kind
  code_span : Kind
  emphasis : ℕ → Kind
  link : String → Kind
  image : String → Kind
  heading : Kind
  paragraph : Kind
  text_block : Kind
  fenced_code_block : List String → Kind
  code_block : List String → Kind
  blockquote : Kind
  list : Bool → ℕ → Kind
  list_item : Kind
  thematic_break : Kind
  raw_html : Kind
  html_block : String → Kind
  other : Kind

mutual
  pub data Node : Type 0 where
    node : Kind → Nodes → Node

  pub data Nodes : Type 0 where
    no_nodes : Nodes
    next : Node → Nodes → Nodes

-- `ast.WalkStatus`, as far as the visitor returns it.
pub data WalkStatus : Type 0 where
  walk_continue walk_skip_children : WalkStatus

-- A visitor; `none` where it panics.
abbrev pub Visitor : Type 0 → Type 0
Visitor S = Node → Bool → S → Option (S × WalkStatus)

abbrev pub bind {ℓ κ} : {A : Type ℓ} {B : Type κ} → Option A → (A → Option B) → Option B
bind none f = none
bind (some a) f = f a

-- `ast.Walk` for a visitor with the state S, on a node and on the children of a node.
pub record Walk (S : Type 0) : Type 0 where
  pub walk : Visitor S → Node → S → Option S
  pub walk_children : Visitor S → Nodes → S → Option S

abbrev pub children_of : Node → Nodes
children_of (node k ns) = ns

abbrev pub entered : {S : Type 0} → Walk S → Visitor S → Node → S × WalkStatus → Option S
entered w visit n (s, walk_continue) = w.walk_children visit (children_of n) s
entered w visit n (s, walk_skip_children) = some s

-- The visitor's calls are: on entering, then on the children unless it asked to skip them, then on leaving.
pub record IsWalk (S : Type 0) (w : Walk S) : Type 0 where
  pub at_node :
      (visit : Visitor S) (n : Node) (s : S)
      → w.walk visit n s
        ≡ bind
            (bind (visit n true s) (entered w visit n))
            (λ t. bind (visit n false t) (λ r. some r.0))
  pub at_end : (visit : Visitor S) (s : S) → w.walk_children visit no_nodes s ≡ some s
  pub at_next :
      (visit : Visitor S) (n : Node) (ns : Nodes) (s : S)
      → w.walk_children visit (next n ns) s ≡ bind (w.walk visit n s) (w.walk_children visit ns)
