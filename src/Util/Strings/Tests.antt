-- ===== src/Util/Strings/Tests.antt =====
-- The copying functions at overlapping and at separate regions.
use huster_experiment_pke.Base.{◌≡◌, arith, inl, ◌==◌, if◌then◌else◌}
use huster_experiment_pke.Util.Strings.{Bytes, memcpy, memmove}
use huster_experiment_pke.Util.Strings.Copy.{copied, memcpy-copied, memmove-copied}

abbrev counting : Bytes
counting x = x

-- "AA" at 100
abbrev text : Bytes
text x = if x == 102 then 0 else 65

memmove-copied_example : memmove 104 100 20 counting 110 ≡ copied 104 100 20 counting 110
memmove-copied_example = memmove-copied 104 100 20 110 counting

memcpy-copied_example : memcpy 104 200 20 counting 110 ≡ copied 104 200 20 counting 110
memcpy-copied_example = memcpy-copied 104 200 20 110 counting (inl (omega arith))
