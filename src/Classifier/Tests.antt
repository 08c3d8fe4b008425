-- ===== src/Classifier/Tests.antt =====
-- Concrete runs of the classifier, and its theorems at concrete inputs.
use disguise.Common.{◌≡◌, refl}
use disguise.Common.Fixed.{fixed}
use disguise.Classifier.{new_classifier, discretize_payload_size}
use disguise.Classifier.Predict.{IsReady}
use disguise.Classifier.Train.{new_classifier-IsModel}

discretize-edges :
    (discretize_payload_size 199 ≡ 0)
    × (discretize_payload_size 200 ≡ 1)
    × (discretize_payload_size 799 ≡ 1)
    × (discretize_payload_size 800 ≡ 2)
unfolding discretize_payload_size
discretize-edges = (refl, refl, refl, refl)

new_classifier-IsReady : IsReady new_classifier
new_classifier-IsReady = new_classifier-IsModel.ready
