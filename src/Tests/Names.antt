-- ===== src/Tests/Names.antt =====
-- Runs of `SanitizeName` and `HexEncode`.
use onnxruntime_ep_iree.Common.{◌≡◌, refl, not, [], ◌∷◌, some, arith, codes}
use onnxruntime_ep_iree.MlirGen.Names.{sanitize_name}
use onnxruntime_ep_iree.MlirGen.Names.Laws.{
  is_identifier, starts_with_dollar, sanitize_name-is_identifier,
}
use onnxruntime_ep_iree.MlirGen.Hex.{hex_encode, hex_decode, hex_decode-hex_encode}

slash : sanitize_name (codes "/conv1/Conv:0") ≡ codes "_conv1_Conv_0"
unfolding sanitize_name
slash = refl

leading_digit : sanitize_name (codes "7.w") ≡ codes "_7_w"
unfolding sanitize_name
leading_digit = refl

bytes : hex_encode (0 ∷ 171 ∷ 255 ∷ []) ≡ codes "0x00abff"
unfolding hex_encode
bytes = refl

sanitize_name-is_identifier_example :
    is_identifier (sanitize_name (codes "$a/b")) ≡ not (starts_with_dollar (codes "$a/b"))
sanitize_name-is_identifier_example = sanitize_name-is_identifier (codes "$a/b")

hex_decode-hex_encode_example :
    hex_decode (hex_encode (0 ∷ 171 ∷ 255 ∷ [])) ≡ some (0 ∷ 171 ∷ 255 ∷ [])
hex_decode-hex_encode_example =
    hex_decode-hex_encode (0 ∷ 171 ∷ 255 ∷ []) (omega arith, (omega arith, (omega arith, tt)))
