-- ===== src/Util/Tests.antt =====
-- The utilities on concrete inputs.
use kube_examples.Common.{◌<◌, ◌≡◌, [], ◌∷◌, ◌++◌, ok, two_32, arith}
use kube_examples.Util.{make_uint32_from_ipv4, make_ipv4_from_uint32}
use kube_examples.Util.Laws.{make_uint32_from_ipv4-make_ipv4_from_uint32}

small_address : 3232235777 < two_32
small_address = omega arith

make_uint32_from_ipv4-make_ipv4_from_uint32_example :
    make_uint32_from_ipv4 ((0 ∷ 255 ∷ 255 ∷ []) ++ make_ipv4_from_uint32 3232235777) ≡ ok 3232235777
make_uint32_from_ipv4-make_ipv4_from_uint32_example =
    make_uint32_from_ipv4-make_ipv4_from_uint32 (0 ∷ 255 ∷ 255 ∷ []) 3232235777 small_address
