-- ===== src/Providers/Content.antt =====
-- ai/types/content.go: the blocks of a message.
use openbotstack_core.Base.{
  ℕ, suc, String, ◌<>◌, Option, none, some, List, [], ◌∷◌, if◌then◌else◌, ◌==◌, ◌&&◌, byte_length,
  show_nat, is_empty,
}
use openbotstack_core.Providers.{ContentBlock}

-- `NewTextBlock`, `NewImageBlock` and `NewImageBlockBase64`
abbrev pub new_text_block : String → ContentBlock
new_text_block t = record { block_type = "text"; text = t; image_url = ""; base64 = ""; media = "" }

abbrev pub new_image_block : String → ContentBlock
new_image_block url = record {
  block_type = "image";
  text = "";
  image_url = url;
  base64 = "";
  media = "";
}

abbrev pub new_image_block_base64 : String → String → ContentBlock
new_image_block_base64 media_type encoded = record {
  block_type = "image";
  text = "";
  image_url = "";
  base64 = encoded;
  media = media_type;
}

-- `ImageRef`
unfoldable pub image_ref : ContentBlock → String
image_ref c =
    if c.base64 == ""
    then c.image_url
    else "data:" <> (if c.media == "" then "image/png" else c.media) <> ";base64," <> c.base64

-- The text of one block in `FlattenToText`.
unfoldable pub block_text : ContentBlock → String
block_text c =
    if c.block_type == "text"
    then c.text
    else if c.block_type == "image"
    then (if c.image_url == ""
        then "[Image: base64 " <> c.media <> " (" <> show_nat (byte_length c.base64) <> " bytes)]"
        else "[Image: " <> c.image_url <> "]")
    else ""

-- `FlattenToText`, whose loop writes a line break before each block but the first.
unfoldable pub flatten_from : List ContentBlock → String
flatten_from [] = ""
flatten_from (c ∷ cs) = "\n" <> block_text c <> flatten_from cs

unfoldable pub flatten_to_text : List ContentBlock → String
flatten_to_text [] = ""
flatten_to_text (c ∷ cs) = block_text c <> flatten_from cs

pub data ContentError : Type 0 where
  no_contents : ContentError
  empty_text : ℕ → ContentError
  empty_image : ℕ → ContentError
  unknown_type : ℕ → String → ContentError

-- The text without the white space around it is strings.TrimSpace.
module _ (trim_space : String → String) where
  -- The check of the block at position `i`.
  unfoldable pub validate_block : ℕ → ContentBlock → Option ContentError
  validate_block i c =
      if c.block_type == "text"
      then (if trim_space c.text == "" then some (empty_text i) else none)
      else if c.block_type == "image"
      then (if trim_space c.image_url == "" && trim_space c.base64 == ""
          then some (empty_image i)
          else none)
      else some (unknown_type i c.block_type)

  -- The loop of `ValidateContents`
  unfoldable pub validate_blocks : ℕ → List ContentBlock → Option ContentError
  validate_blocks i [] = none
  validate_blocks i (c ∷ cs) = elim (validate_block i c) [
    | none ↦ validate_blocks (suc i) cs
    | some e ↦ some e
  ]

  -- `ValidateContents`
  unfoldable pub validate_contents : List ContentBlock → Option ContentError
  validate_contents cs = if is_empty cs then some no_contents else validate_blocks 0 cs
