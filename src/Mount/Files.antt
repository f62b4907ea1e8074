-- ===== src/Mount/Files.antt =====
-- internal/mount/mount.go: files of an image.
pub mod Opened
use ocifuse.Prelude.{
  ℕ, ℤ, pos, negsuc, false, Option, none, some, List, Bytes, get_elem?, take, Result, ok, err,
}
use ocifuse.Strings.{trim_prefix}
use ocifuse.SlashPath.{root}
use ocifuse.Indexer.{Layer}
use ocifuse.Mount.{Attr, Errno, eio, ImageFile, ReadError, eof, read_failed, Services}
use ocifuse.Mount.Attrs.{set_attr_from_header}

-- What the kernel hands back is the handle of an open file, or one of another kind.
pub data FileHandle (F : Type 0) : Type 0 where
  file_handle : F → FileHandle F
  other_handle : FileHandle F

-- The layer with this index, if there is one.
abbrev pub layer_at : {Fs : Type 0} → List (Layer Fs) → ℤ → Option (Layer Fs)
layer_at layers (negsuc n) = none
layer_at layers (pos n) = get_elem? layers n

module _ {S L T Fs F E : Type 0} (calls : Services S L T Fs F E) where
  unfoldable pub image_file_getattr : ImageFile Fs → Attr → Attr
  image_file_getattr f out = set_attr_from_header out f.entry.header false

  unfoldable pub image_file_open : ImageFile Fs → Result Errno (FileHandle F)
  image_file_open f = elim (layer_at f.layers f.entry.layer_idx) [
    | none ↦ err eio
    | some layer ↦ elim (calls.open_file layer.fs (trim_prefix f.entry.path root)) [
      | err e ↦ err eio
      | ok f ↦ ok (file_handle f)
    ]
  ]

  -- What ReadAt read, for no error or the end of the file.
  abbrev pub read_result : Bytes × Option (ReadError E) → Result Errno Bytes
  read_result (bytes, none) = ok bytes
  read_result (bytes, some eof) = ok bytes
  read_result (bytes, some (read_failed e)) = err eio

  unfoldable pub image_file_read : FileHandle F → ℕ → ℤ → Result Errno Bytes
  image_file_read other_handle room off = err eio
  image_file_read (file_handle file) room off = elim (calls.read_at file) [
    | none ↦ err eio
    | some read ↦ read_result (read room off)
  ]
