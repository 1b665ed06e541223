-- ===== src/Tests/Loader.antt =====
-- The theorem on source/core/exb/load.c, with the image of one segment and the kernel in which two
-- spaces have a mapping each.
use xasmos.Base.{refl, true, arith, some}
use xasmos.Paging.Spaces.{XAspace}
use xasmos.Exb.Parse.{exb_parse}
use xasmos.Loader.Load.{xload_exb}
use xasmos.Loader.Amd64.{amd64}
use xasmos.Loader.Unmap.{Unused}
use xasmos.Loader.Laws.{LoadOutcome, xload_exb-LoadOutcome}
use xasmos.Tests.Exb.{image, before}
use xasmos.Tests.Spaces.{two_mapped, two_mapped-IsCoherent}
use xasmos.Tests.Sys.{quotas}

abbrev pub new_space : XAspace
new_space = record { pml4_phys = 28672; owner_id = 3; live = true }

new_space-Unused : Unused 28672 two_mapped
new_space-Unused j q live same = ground arith

xload_exb-LoadOutcome_example :
    LoadOutcome new_space
      (exb_parse (some image) 100 before).1
      two_mapped
      (xload_exb (amd64 quotas) (some new_space) 3 (some image) 100 before two_mapped)
xload_exb-LoadOutcome_example =
    xload_exb-LoadOutcome quotas new_space 3 100 image before two_mapped two_mapped-IsCoherent refl
      new_space-Unused
