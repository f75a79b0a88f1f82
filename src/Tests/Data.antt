-- ===== src/Tests/Data.antt =====
-- Positions, files of nodes, property streams and the tree of names (src/position.h, src/fileloader.cpp,
-- src/wildcardtree.cpp).
use infernum_data_pack.Base.{◌<◌, ◌≡◌, [], ◌∷◌, some, arith, length}
use infernum_data_pack.Position.{Position}
use infernum_data_pack.Position.Range.{IsPosition}
use infernum_data_pack.Loader.{Node, node, no_children, emplace_back, load, get_props}
use infernum_data_pack.Loader.RoundTrip.{
  escape, encode, encode_all, raw, load-encode, get_props-raw,
}
use infernum_data_pack.WildcardTree.Insert.{has}
use infernum_data_pack.WildcardTree.Names.{inserts, removes, run, is_online, has-run}

abbrev here : Position
here = record { x = 100; y = 200; z = 7 }

abbrev there : Position
there = record { x = 65535; y = 199; z = 7 }

here-IsPosition : IsPosition here
here-IsPosition = record { x_fits = omega arith; y_fits = omega arith; z_fits = omega arith }

there-IsPosition : IsPosition there
there-IsPosition = record { x_fits = omega arith; y_fits = omega arith; z_fits = omega arith }

abbrev document : Node
document = node 1 (5 ∷ 254 ∷ []) (emplace_back no_children (node 2 (255 ∷ []) no_children))

document_length : 3 < length (encode document)
unfolding encode encode_all escape
document_length = omega arith

load-encode_example :
    load (79 ∷ 84 ∷ 66 ∷ 77 ∷ []) (79 ∷ 84 ∷ 66 ∷ 77 ∷ encode document) ≡ some (raw document)
load-encode_example = load-encode 79 84 66 77 document document_length

get_props-raw_example : get_props (raw (node 2 (255 ∷ []) no_children)) ≡ some (255 ∷ [])
get_props-raw_example = get_props-raw 2 (255 ∷ []) no_children

has-run_example :
    has (97 ∷ []) (run (removes (97 ∷ 98 ∷ []) ∷ inserts 97 (98 ∷ []) ∷ inserts 97 [] ∷ []))
    ≡ is_online (removes (97 ∷ 98 ∷ []) ∷ inserts 97 (98 ∷ []) ∷ inserts 97 [] ∷ []) (97 ∷ [])
has-run_example =
    has-run (removes (97 ∷ 98 ∷ []) ∷ inserts 97 (98 ∷ []) ∷ inserts 97 [] ∷ []) (97 ∷ [])
