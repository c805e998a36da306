-- ===== src/Storage/Tests.antt =====
-- The theorems of the storage at concrete inputs.
use vasto.Prelude.{◌≡◌, refl, true, false, [], ◌∷◌, bytes_eq, codes, none, ok}
use vasto.Prelude.Int.{pos, negsuc}
use vasto.Storage.Rocks.{MergeOperator, admits, incr}
use vasto.Storage.Rocks.Memory.{memory}
use vasto.Storage.Rocks.Shutdown.{Gate, Step, enter}
use vasto.Storage.PrefixScan.{enumerate, has_prefix}
use vasto.Storage.PrefixScan.Laws.{Pairs, collect, enumerate_pages}

-- One call comes and goes, and the database is shut.
abbrev entered : Gate
entered = record { counter = pos 1; inside = 1; refused = 0; closed = false }

abbrev shut : Gate
shut = record { counter = negsuc 99; inside = 0; refused = 0; closed = true }

-- The hundred-and-first call while a hundred are being refused is let in although the database is shut.
abbrev crowded : Gate
crowded = record { counter = pos 0; inside = 0; refused = 100; closed = true }

late_call : Step crowded (record crowded { counter = pos 1; inside = 1 })
unfolding incr admits
late_call = enter crowded refl

abbrev keep : MergeOperator
keep old operands = ok (old, true)

abbrev pairs : Pairs
pairs = (codes "ka", codes "1") ∷ (codes "kb", codes "2") ∷ (codes "kc", codes "3") ∷ []

enumerate_pages_example :
    (enumerate collect (memory keep pairs) (codes "k") [] 2 [] (λ key. [])
      ≡ ok ((codes "ka", codes "1") ∷ (codes "kb", codes "2") ∷ [], none))
    × (enumerate collect (memory keep pairs) (codes "k") (codes "kb") 1 [] (λ key. [])
        ≡ ok ((codes "kc", codes "3") ∷ [], none))
    × (enumerate collect (memory keep pairs) (codes "k") [] 0 [] (λ key. []) ≡ ok (pairs, none))
unfolding has_prefix bytes_eq
enumerate_pages_example =
    enumerate_pages (memory keep pairs) (λ key. []) (codes "k") 1 ((codes "ka", codes "1") ∷ [])
      ((codes "kc", codes "3") ∷ []) (codes "kb") (codes "2") refl (refl, (refl, tt)) refl refl
