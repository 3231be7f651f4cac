-- ===== src/MsgPack/Names.antt =====
-- Entries with distinct names come into a map in their order.
use libcluon.Prelude.{same, ℕ, ◌≡◌, refl, ap, sym, ◌∙◌}
use libcluon.Prelude.{false, List}
use libcluon.Visitor.{Schema, Vals, end, field}
use libcluon.MsgPack.Constants.{Format}
use libcluon.MsgPack.Tree.{format_of, tree, trees, Absent, Distinct}
use libcluon.MsgPack.Decode.{AnyValue, KeyValues, nil, pair, put}
use libcluon.MsgPack.Decode.Entries.{puts}

-- A map with the entries of another one behind its own.
joined : KeyValues → KeyValues → KeyValues
joined nil m = m
joined (pair k f a n) m = pair k f a (joined n m)

joined-nil : (m : KeyValues) → joined m nil ≡ m
unfolding joined
joined-nil nil = refl
joined-nil (pair k f a m) = ap (λ t. pair k f a t) (joined-nil m)

joined-pair :
    (k : List ℕ) (f : Format) (a : AnyValue) (n m : KeyValues)
    → joined (joined n (pair k f a nil)) m ≡ joined n (pair k f a m)
unfolding joined
joined-pair k f a nil m = refl
joined-pair k f a (pair j g b n) m = ap (λ t. pair j g b t) (joined-pair k f a n m)

-- Names that a map does not have.
Missing : List ℕ → KeyValues → Type 0
Missing name nil = Unit {0}
Missing name (pair k f a m) = (same k name ≡ false) × Missing name m

AllMissing : Schema → KeyValues → Type 0
unfolding Missing
AllMissing end m = Unit {0}
AllMissing (field id name t s) m = Missing name m × AllMissing s m

put-Missing :
    (k : List ℕ) (f : Format) (a : AnyValue) (m : KeyValues)
    → Missing k m
    → put k f a m ≡ joined m (pair k f a nil)
unfolding put joined Missing
put-Missing k f a nil h = refl
put-Missing k f a (pair j g b m) h = rw (h.0, put-Missing k f a m h.1)

joined-Missing :
    (name k : List ℕ) (f : Format) (a : AnyValue) (m : KeyValues)
    → same k name ≡ false
    → Missing name m
    → Missing name (joined m (pair k f a nil))
unfolding joined Missing
joined-Missing name k f a nil e h = (e, tt)
joined-Missing name k f a (pair j g b m) e h = (h.0, joined-Missing name k f a m e h.1)

joined-AllMissing :
    (s : Schema) (k : List ℕ) (f : Format) (a : AnyValue) (m : KeyValues)
    → Absent k s
    → AllMissing s m
    → AllMissing s (joined m (pair k f a nil))
unfolding AllMissing
joined-AllMissing end k f a m e h = tt
joined-AllMissing (field id name t s) k f a m e h =
    (joined-Missing name k f a m e.0 h.0, joined-AllMissing s k f a m e.1 h.1)

puts-joined :
    (s : Schema) (v : Vals s) (m : KeyValues)
    → Distinct s
    → AllMissing s m
    → puts (trees s v) m ≡ joined m (trees s v)
unfolding puts trees AllMissing
puts-joined end v m d h = sym (joined-nil m)
puts-joined (field id name t s) v m d h =
    let f = format_of (tree t v.0) in
    ap (λ n. puts (trees s v.1) n) (put-Missing name f (tree t v.0) m h.0)
    ∙ puts-joined s v.1 (joined m (pair name f (tree t v.0) nil)) d.1
        (joined-AllMissing s name f (tree t v.0) m d.0 h.1)
    ∙ joined-pair name f (tree t v.0) m (trees s v.1)

nil-AllMissing : (s : Schema) → AllMissing s nil
unfolding AllMissing Missing
nil-AllMissing end = tt
nil-AllMissing (field id name t s) = (tt, nil-AllMissing s)

pub puts-trees : (s : Schema) (v : Vals s) → Distinct s → puts (trees s v) nil ≡ trees s v
unfolding joined
puts-trees s v d = puts-joined s v nil d (nil-AllMissing s)
