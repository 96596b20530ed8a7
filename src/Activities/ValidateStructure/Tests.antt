-- ===== src/Activities/ValidateStructure/Tests.antt =====
-- A small digitized package for ingest.
use preprocessing_sfa.Prelude.{true, false, none, [], ◌∷◌, ◌≡◌, refl}
use preprocessing_sfa.Prelude.Text
use preprocessing_sfa.Prelude.Lists
use preprocessing_sfa.FilePath
use preprocessing_sfa.FileSystem.{Fs, Visit}
use preprocessing_sfa.Sip
use preprocessing_sfa.Sip.{Sip, digitized_sip_at}
use preprocessing_sfa.Activities.ValidateStructure
use preprocessing_sfa.Activities.ValidateStructure.{execute, returned}
use preprocessing_sfa.Activities.ValidateStructure.Laws.{IsStructured, execute-IsStructured}

abbrev tree : Fs
tree = record {
  stat = λ p. none;
  walk = λ p.
      Visit.entry "/sip" "sip" true
      ∷ Visit.entry "/sip/content" "content" true
      ∷ Visit.entry "/sip/content/d_0000001" "d_0000001" true
      ∷ Visit.entry "/sip/content/d_0000001/00000001.jp2" "00000001.jp2" false
      ∷ Visit.entry "/sip/header" "header" true
      ∷ Visit.entry "/sip/header/metadata.xml" "metadata.xml" false
      ∷ Visit.entry "/sip/header/xsd" "xsd" true
      ∷ Visit.entry "/sip/header/xsd/arelda.xsd" "arelda.xsd" false
      ∷ [];
}

tree_passes : execute tree (digitized_sip_at "/sip") ≡ returned []
unfolding execute ValidateStructure.validate_structure ValidateStructure.walk
    ValidateStructure.visit_entry ValidateStructure.validate_name ValidateStructure.add_child
    ValidateStructure.report_failures ValidateStructure.empty_dirs
    ValidateStructure.has_many_dossiers digitized_sip_at Sip.is_aip FilePath.rel FilePath.clean
    FilePath.components FilePath.join FilePath.dir FilePath.base Text.join_with Text.split_slash
    Text.quote Lists.contains
tree_passes = refl

execute-IsStructured_example :
    IsStructured (digitized_sip_at "/sip") (tree.walk (digitized_sip_at "/sip").path)
execute-IsStructured_example = execute-IsStructured tree (digitized_sip_at "/sip") tree_passes
