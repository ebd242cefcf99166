-- ===== src/Handler/Constants.antt =====
-- The `#define`s and the literals of MZHandler.cpp.
use test.Prelude.{ℕ, List}
use test.Prelude.Text.{text}

abbrev pub minimal_route_coverage : ℕ
minimal_route_coverage = 40

abbrev pub generate_how_many : ℕ
generate_how_many = 200

abbrev pub width : ℕ
width = 5

abbrev pub height : ℕ
height = 12

abbrev pub mz_string : List ℕ
mz_string = text "3675dd9a26369cd9a6345ddd5126555d9062653e9e3cd1aa611a8a4590c7"
