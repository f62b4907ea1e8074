-- ===== src/Merge/Layer/Order.antt =====
-- The order in which `applyLayer` goes through a layer.
use ocifuse.Prelude.{
  ◌≡◌, true, false, List, bytes_ltb_irrefl, bytes_ltb_trans, bytes_ltb_total, arith,
}
use ocifuse.Prelude.Sort.{sort, IsSorted, IsOrder, sort-IsSorted}
use ocifuse.Merge.{TarEntry, by_filename}

pub by_filename_irrefl : (a : TarEntry) → by_filename a a ≡ false
unfolding by_filename
by_filename_irrefl a = bytes_ltb_irrefl a.filename

by_filename_asym : (a b : TarEntry) → by_filename a b ≡ true → by_filename b a ≡ false
unfolding by_filename
by_filename_asym a b h =
    ground (arith, bytes_ltb_irrefl a.filename, bytes_ltb_trans a.filename b.filename a.filename)

by_filename_neg_trans :
    (a b c : TarEntry) → by_filename b a ≡ false → by_filename c b ≡ false → by_filename c a ≡ false
unfolding by_filename
by_filename_neg_trans a b c h k =
    ground (
      arith,
      bytes_ltb_total a.filename b.filename,
      bytes_ltb_trans c.filename a.filename b.filename,
    )

by_filename-IsOrder : IsOrder by_filename
by_filename-IsOrder = record { asym = by_filename_asym; neg_trans = by_filename_neg_trans }

pub sort_layer-IsSorted : (layer : List TarEntry) → IsSorted by_filename (sort by_filename layer)
sort_layer-IsSorted = sort-IsSorted by_filename by_filename-IsOrder
