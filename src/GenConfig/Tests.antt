-- ===== src/GenConfig/Tests.antt =====
-- The constants of src/zap-generated/gen_config.h at one name.
use shirokumakun_matter.Common.{◌≡◌, refl, true, All}
use shirokumakun_matter.DataModel.Endpoints.{generated_clusters}
use shirokumakun_matter.GenConfig.Types.{count_entry}
use shirokumakun_matter.GenConfig.Counted.{IsServed, IsUsed, is_known, counts-AreRight}

counts-AreRight_example :
    IsServed (count_entry "IDENTIFY" 3)
    × IsUsed (count_entry "IDENTIFY" 1)
    × All (λ cl. is_known cl ≡ true) generated_clusters
counts-AreRight_example =
    counts-AreRight "IDENTIFY" (count_entry "IDENTIFY" 3) (count_entry "IDENTIFY" 1) refl refl
