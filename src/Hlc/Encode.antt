-- ===== src/Hlc/Encode.antt =====
-- `encodeHlc` of sdk/src/hlc.mjs: the sortable string of a stamp.
use zed_sync.Prelude.{ℕ, zero, suc, ◌-◌, ◌%◌, ◌^◌, ◌++◌, ◌∷◌, length, JsString}
use zed_sync.Radix.{to_radix}
use zed_sync.Hlc.{Hlc}

unfoldable pub zeros : ℕ → JsString → JsString
zeros zero s = s
zeros (suc n) s = 48 ∷ zeros n s

-- `s.padStart(n, "0")`
unfoldable pub pad_start : ℕ → JsString → JsString
unfolding zeros
pad_start n s = zeros (n - length s) s

unfoldable pub encode_hlc : Hlc → JsString
unfolding pad_start
encode_hlc h =
    pad_start 12 (to_radix 16 (h.wall_ms % 2 ^ 48))
    ++ 45 ∷ pad_start 4 (to_radix 16 (h.counter % 2 ^ 16))
