-- ===== src/Inference/Classes/From0.antt =====
-- The classes from 0 on (inference-contract/pdo/inference/model_scoring_scripts/image_classes.py).
use pdo_contracts.Base.{String, List, [], ◌∷◌}

unfoldable pub classes_0 : List String
classes_0 =
    "tench, Tinca tinca" ∷ "goldfish, Carassius auratus"
    ∷ "great white shark, white shark, man-eater, man-eating shark, Carcharodon carcharias"
    ∷ "tiger shark, Galeocerdo cuvieri" ∷ "hammerhead, hammerhead shark"
    ∷ "electric ray, crampfish, numbfish, torpedo" ∷ "stingray" ∷ "cock" ∷ "hen"
    ∷ "ostrich, Struthio camelus" ∷ "brambling, Fringilla montifringilla"
    ∷ "goldfinch, Carduelis carduelis" ∷ "house finch, linnet, Carpodacus mexicanus"
    ∷ "junco, snowbird" ∷ "indigo bunting, indigo finch, indigo bird, Passerina cyanea"
    ∷ "robin, American robin, Turdus migratorius" ∷ "bulbul" ∷ "jay" ∷ "magpie" ∷ "chickadee"
    ∷ "water ouzel, dipper" ∷ "kite" ∷ "bald eagle, American eagle, Haliaeetus leucocephalus"
    ∷ "vulture" ∷ "great grey owl, great gray owl, Strix nebulosa"
    ∷ "European fire salamander, Salamandra salamandra" ∷ "common newt, Triturus vulgaris" ∷ "eft"
    ∷ "spotted salamander, Ambystoma maculatum" ∷ "axolotl, mud puppy, Ambystoma mexicanum"
    ∷ "bullfrog, Rana catesbeiana" ∷ "tree frog, tree-frog"
    ∷ "tailed frog, bell toad, ribbed toad, tailed toad, Ascaphus trui"
    ∷ "loggerhead, loggerhead turtle, Caretta caretta"
    ∷ "leatherback turtle, leatherback, leathery turtle, Dermochelys coriacea" ∷ "mud turtle"
    ∷ "terrapin" ∷ "box turtle, box tortoise" ∷ "banded gecko"
    ∷ "common iguana, iguana, Iguana iguana" ∷ "American chameleon, anole, Anolis carolinensis"
    ∷ "whiptail, whiptail lizard" ∷ "agama" ∷ "frilled lizard, Chlamydosaurus kingi"
    ∷ "alligator lizard" ∷ "Gila monster, Heloderma suspectum" ∷ "green lizard, Lacerta viridis"
    ∷ "African chameleon, Chamaeleo chamaeleon"
    ∷ "Komodo dragon, Komodo lizard, dragon lizard, giant lizard, Varanus komodoensis"
    ∷ "African crocodile, Nile crocodile, Crocodylus niloticus"
    ∷ "American alligator, Alligator mississipiensis" ∷ "triceratops"
    ∷ "thunder snake, worm snake, Carphophis amoenus"
    ∷ "ringneck snake, ring-necked snake, ring snake" ∷ "hognose snake, puff adder, sand viper"
    ∷ "green snake, grass snake" ∷ "king snake, kingsnake" ∷ "garter snake, grass snake"
    ∷ "water snake" ∷ "vine snake" ∷ "night snake, Hypsiglena torquata"
    ∷ "boa constrictor, Constrictor constrictor" ∷ "rock python, rock snake, Python sebae"
    ∷ "Indian cobra, Naja naja" ∷ "green mamba" ∷ "sea snake"
    ∷ "horned viper, cerastes, sand viper, horned asp, Cerastes cornutus"
    ∷ "diamondback, diamondback rattlesnake, Crotalus adamanteus"
    ∷ "sidewinder, horned rattlesnake, Crotalus cerastes" ∷ "trilobite"
    ∷ "harvestman, daddy longlegs, Phalangium opilio" ∷ "scorpion"
    ∷ "black and gold garden spider, Argiope aurantia" ∷ "barn spider, Araneus cavaticus"
    ∷ "garden spider, Aranea diademata" ∷ "black widow, Latrodectus mactans" ∷ "tarantula"
    ∷ "wolf spider, hunting spider" ∷ "tick" ∷ "centipede" ∷ "black grouse" ∷ "ptarmigan"
    ∷ "ruffed grouse, partridge, Bonasa umbellus" ∷ "prairie chicken, prairie grouse, prairie fowl"
    ∷ "peacock" ∷ "quail" ∷ "partridge" ∷ "African grey, African gray, Psittacus erithacus"
    ∷ "macaw" ∷ "sulphur-crested cockatoo, Kakatoe galerita, Cacatua galerita" ∷ "lorikeet"
    ∷ "coucal" ∷ "bee eater" ∷ "hornbill" ∷ "hummingbird" ∷ "jacamar" ∷ "toucan" ∷ "drake"
    ∷ "red-breasted merganser, Mergus serrator" ∷ "goose" ∷ []

unfoldable pub classes_100 : List String
classes_100 =
    "black swan, Cygnus atratus" ∷ "tusker" ∷ "echidna, spiny anteater, anteater"
    ∷ "platypus, duckbill, duckbilled platypus, duck-billed platypus, Ornithorhynchus anatinus"
    ∷ "wallaby, brush kangaroo"
    ∷ "koala, koala bear, kangaroo bear, native bear, Phascolarctos cinereus" ∷ "wombat"
    ∷ "jellyfish" ∷ "sea anemone, anemone" ∷ "brain coral" ∷ "flatworm, platyhelminth"
    ∷ "nematode, nematode worm, roundworm" ∷ "conch" ∷ "snail" ∷ "slug" ∷ "sea slug, nudibranch"
    ∷ "chiton, coat-of-mail shell, sea cradle, polyplacophore"
    ∷ "chambered nautilus, pearly nautilus, nautilus" ∷ "Dungeness crab, Cancer magister"
    ∷ "rock crab, Cancer irroratus" ∷ "fiddler crab"
    ∷ "king crab, Alaska crab, Alaskan king crab, Alaska king crab, Paralithodes camtschatica"
    ∷ "American lobster, Northern lobster, Maine lobster, Homarus americanus"
    ∷ "spiny lobster, langouste, rock lobster, crawfish, crayfish, sea crawfish"
    ∷ "crayfish, crawfish, crawdad, crawdaddy" ∷ "hermit crab" ∷ "isopod"
    ∷ "white stork, Ciconia ciconia" ∷ "black stork, Ciconia nigra" ∷ "spoonbill" ∷ "flamingo"
    ∷ "little blue heron, Egretta caerulea" ∷ "American egret, great white heron, Egretta albus"
    ∷ "bittern" ∷ "crane" ∷ "limpkin, Aramus pictus" ∷ "European gallinule, Porphyrio porphyrio"
    ∷ "American coot, marsh hen, mud hen, water hen, Fulica americana" ∷ "bustard"
    ∷ "ruddy turnstone, Arenaria interpres" ∷ "red-backed sandpiper, dunlin, Erolia alpina"
    ∷ "redshank, Tringa totanus" ∷ "dowitcher" ∷ "oystercatcher, oyster catcher" ∷ "pelican"
    ∷ "king penguin, Aptenodytes patagonica" ∷ "albatross, mollymawk"
    ∷ "grey whale, gray whale, devilfish, Eschrichtius gibbosus, Eschrichtius robustus"
    ∷ "killer whale, killer, orca, grampus, sea wolf, Orcinus orca" ∷ "dugong, Dugong dugon"
    ∷ "sea lion" ∷ "Chihuahua" ∷ "Japanese spaniel" ∷ "Maltese dog, Maltese terrier, Maltese"
    ∷ "Pekinese, Pekingese, Peke" ∷ "Shih-Tzu" ∷ "Blenheim spaniel" ∷ "papillon" ∷ "toy terrier"
    ∷ "Rhodesian ridgeback" ∷ "Afghan hound, Afghan" ∷ "basset, basset hound" ∷ "beagle"
    ∷ "bloodhound, sleuthhound" ∷ "bluetick" ∷ "black-and-tan coonhound"
    ∷ "Walker hound, Walker foxhound" ∷ "English foxhound" ∷ "redbone" ∷ "borzoi, Russian wolfhound"
    ∷ "Irish wolfhound" ∷ "Italian greyhound" ∷ "whippet" ∷ "Ibizan hound, Ibizan Podenco"
    ∷ "Norwegian elkhound, elkhound" ∷ "otterhound, otter hound" ∷ "Saluki, gazelle hound"
    ∷ "Scottish deerhound, deerhound" ∷ "Weimaraner"
    ∷ "Staffordshire bullterrier, Staffordshire bull terrier"
    ∷ "American Staffordshire terrier, Staffordshire terrier, American pit bull terrier, pit bull terrier"
    ∷ "Bedlington terrier" ∷ "Border terrier" ∷ "Kerry blue terrier" ∷ "Irish terrier"
    ∷ "Norfolk terrier" ∷ "Norwich terrier" ∷ "Yorkshire terrier" ∷ "wire-haired fox terrier"
    ∷ "Lakeland terrier" ∷ "Sealyham terrier, Sealyham" ∷ "Airedale, Airedale terrier"
    ∷ "cairn, cairn terrier" ∷ "Australian terrier" ∷ "Dandie Dinmont, Dandie Dinmont terrier"
    ∷ "Boston bull, Boston terrier" ∷ "miniature schnauzer" ∷ "giant schnauzer"
    ∷ "standard schnauzer" ∷ "Scotch terrier, Scottish terrier, Scottie" ∷ []
