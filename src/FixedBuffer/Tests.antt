-- ===== src/FixedBuffer/Tests.antt =====
-- FixedBuffer: runs at small sizes.
use telnet_serv.Prelude.{◌≡◌, refl, [], ◌∷◌}
use telnet_serv.FixedBuffer.{FixedBuffer, append, as_string}

abbrev empty : FixedBuffer
empty = record { chars = 7 ∷ 7 ∷ 7 ∷ 7 ∷ []; cur = 0 }

append_twice : as_string (append 4 (append 4 empty (1 ∷ 2 ∷ []) 2) (3 ∷ []) 1) ≡ 1 ∷ 2 ∷ 3 ∷ []
unfolding append as_string
append_twice = refl

-- The last byte of the array is never used.
append_refused : as_string (append 4 (append 4 empty (1 ∷ 2 ∷ []) 2) (3 ∷ 4 ∷ []) 2) ≡ 1 ∷ 2 ∷ []
unfolding append as_string
append_refused = refl
