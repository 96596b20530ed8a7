-- ===== src/Activities/AddPremis/Laws.antt =====
-- What the activities keep of a PREMIS file.
use preprocessing_sfa.Prelude.{ℕ, String, ◌≡◌, arith}
use preprocessing_sfa.FileSystem.{Fs, Result, ok, err}
use preprocessing_sfa.Premis.Xml.{Etree}
use preprocessing_sfa.Premis.Document.{Stamp, parse_or_initialize}
use preprocessing_sfa.Premis.Edits.{event_for_each, apply_edit, IsPremis, IsEdited}
use preprocessing_sfa.Premis.Entities.{apply_edit-IsEdited}
use preprocessing_sfa.Activities.AddPremis.{
  EventParams, summary_of, write, write_result, add_premis_event,
}

write_result-written :
    (x : Etree) (fs : Fs) (path : String) (r : Result x.Doc) (d : x.Doc)
    → write_result x fs path r ≡ ok d
    → r ≡ ok d
unfolding write_result write
write_result-written x fs path (err t) d e = grind arith
write_result-written x fs path (ok d') d e = grind arith

-- If the PREMIS file has an object, and its elements are objects, events and agents in this order, then
-- the document that the activity writes is such a document too, and has exactly one event more for
-- each object that is found.
pub add_premis_event-IsEdited :
    (x : Etree) (fs : Fs) (stamp : ℕ → Stamp) (params : EventParams) (d d' : x.Doc)
    → parse_or_initialize x fs params.premis_file_path ≡ ok d
    → IsPremis x d
    → add_premis_event x fs stamp params ≡ ok d'
    → IsEdited x d (event_for_each stamp (summary_of params) params.agent) d'
unfolding add_premis_event apply_edit
add_premis_event-IsEdited x fs stamp params d d' p h e =
    apply_edit-IsEdited x d d' (event_for_each stamp (summary_of params) params.agent) h
      (write_result-written x fs params.premis_file_path _ d' (grind arith))
