-- ===== src/G711/Tests.antt =====
-- The codec on samples that can be followed by hand, and its theorems at such samples.
use esp32_ipc.Base.{◌<◌, ◌≡◌, refl, arith}
use esp32_ipc.Base.Int.{pos, negsuc}
use esp32_ipc.G711.{encode, decode, find_seg, pack, expand, negate}
use esp32_ipc.G711.Bytes.{encode_again}
use esp32_ipc.G711.Laws.{IsSample}

encode_zero : encode (pos 0) ≡ 0xD5
unfolding encode find_seg pack
encode_zero = refl

encode_loud : encode (pos 32767) ≡ 0xAA
unfolding encode find_seg pack
encode_loud = refl

decode_loud : decode 0x2A ≡ negsuc 32255
unfolding decode expand negate
decode_loud = refl

encode_again_example :
    (encode (negsuc 1000) < 256)
    × IsSample (decode (encode (negsuc 1000)))
    × (encode (decode (encode (negsuc 1000))) ≡ encode (negsuc 1000))
encode_again_example = encode_again (negsuc 1000) (omega arith, omega arith)
