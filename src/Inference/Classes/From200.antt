-- ===== src/Inference/Classes/From200.antt =====
-- The classes from 200 on (inference-contract/pdo/inference/model_scoring_scripts/image_classes.py).
use pdo_contracts.Base.{String, List, [], ◌∷◌}

unfoldable pub classes_200 : List String
classes_200 =
    "Tibetan terrier, chrysanthemum dog" ∷ "silky terrier, Sydney silky"
    ∷ "soft-coated wheaten terrier" ∷ "West Highland white terrier" ∷ "Lhasa, Lhasa apso"
    ∷ "flat-coated retriever" ∷ "curly-coated retriever" ∷ "golden retriever" ∷ "Labrador retriever"
    ∷ "Chesapeake Bay retriever" ∷ "German short-haired pointer" ∷ "vizsla, Hungarian pointer"
    ∷ "English setter" ∷ "Irish setter, red setter" ∷ "Gordon setter" ∷ "Brittany spaniel"
    ∷ "clumber, clumber spaniel" ∷ "English springer, English springer spaniel"
    ∷ "Welsh springer spaniel" ∷ "cocker spaniel, English cocker spaniel, cocker" ∷ "Sussex spaniel"
    ∷ "Irish water spaniel" ∷ "kuvasz" ∷ "schipperke" ∷ "groenendael" ∷ "malinois" ∷ "briard"
    ∷ "kelpie" ∷ "komondor" ∷ "Old English sheepdog, bobtail"
    ∷ "Shetland sheepdog, Shetland sheep dog, Shetland" ∷ "collie" ∷ "Border collie"
    ∷ "Bouvier des Flandres, Bouviers des Flandres" ∷ "Rottweiler"
    ∷ "German shepherd, German shepherd dog, German police dog, alsatian"
    ∷ "Doberman, Doberman pinscher" ∷ "miniature pinscher" ∷ "Greater Swiss Mountain dog"
    ∷ "Bernese mountain dog" ∷ "Appenzeller" ∷ "EntleBucher" ∷ "boxer" ∷ "bull mastiff"
    ∷ "Tibetan mastiff" ∷ "French bulldog" ∷ "Great Dane" ∷ "Saint Bernard, St Bernard"
    ∷ "Eskimo dog, husky" ∷ "malamute, malemute, Alaskan malamute" ∷ "Siberian husky"
    ∷ "dalmatian, coach dog, carriage dog" ∷ "affenpinscher, monkey pinscher, monkey dog"
    ∷ "basenji" ∷ "pug, pug-dog" ∷ "Leonberg" ∷ "Newfoundland, Newfoundland dog" ∷ "Great Pyrenees"
    ∷ "Samoyed, Samoyede" ∷ "Pomeranian" ∷ "chow, chow chow" ∷ "keeshond" ∷ "Brabancon griffon"
    ∷ "Pembroke, Pembroke Welsh corgi" ∷ "Cardigan, Cardigan Welsh corgi" ∷ "toy poodle"
    ∷ "miniature poodle" ∷ "standard poodle" ∷ "Mexican hairless"
    ∷ "timber wolf, grey wolf, gray wolf, Canis lupus"
    ∷ "white wolf, Arctic wolf, Canis lupus tundrarum"
    ∷ "red wolf, maned wolf, Canis rufus, Canis niger"
    ∷ "coyote, prairie wolf, brush wolf, Canis latrans" ∷ "dingo, warrigal, warragal, Canis dingo"
    ∷ "dhole, Cuon alpinus" ∷ "African hunting dog, hyena dog, Cape hunting dog, Lycaon pictus"
    ∷ "hyena, hyaena" ∷ "red fox, Vulpes vulpes" ∷ "kit fox, Vulpes macrotis"
    ∷ "Arctic fox, white fox, Alopex lagopus" ∷ "grey fox, gray fox, Urocyon cinereoargenteus"
    ∷ "tabby, tabby cat" ∷ "tiger cat" ∷ "Persian cat" ∷ "Siamese cat, Siamese" ∷ "Egyptian cat"
    ∷ "cougar, puma, catamount, mountain lion, painter, panther, Felis concolor" ∷ "lynx, catamount"
    ∷ "leopard, Panthera pardus" ∷ "snow leopard, ounce, Panthera uncia"
    ∷ "jaguar, panther, Panthera onca, Felis onca" ∷ "lion, king of beasts, Panthera leo"
    ∷ "tiger, Panthera tigris" ∷ "cheetah, chetah, Acinonyx jubatus"
    ∷ "brown bear, bruin, Ursus arctos"
    ∷ "American black bear, black bear, Ursus americanus, Euarctos americanus"
    ∷ "ice bear, polar bear, Ursus Maritimus, Thalarctos maritimus"
    ∷ "sloth bear, Melursus ursinus, Ursus ursinus" ∷ "mongoose" ∷ "meerkat, mierkat" ∷ []

unfoldable pub classes_300 : List String
classes_300 =
    "tiger beetle" ∷ "ladybug, ladybeetle, lady beetle, ladybird, ladybird beetle"
    ∷ "ground beetle, carabid beetle" ∷ "long-horned beetle, longicorn, longicorn beetle"
    ∷ "leaf beetle, chrysomelid" ∷ "dung beetle" ∷ "rhinoceros beetle" ∷ "weevil" ∷ "fly" ∷ "bee"
    ∷ "ant, emmet, pismire" ∷ "grasshopper, hopper" ∷ "cricket"
    ∷ "walking stick, walkingstick, stick insect" ∷ "cockroach, roach" ∷ "mantis, mantid"
    ∷ "cicada, cicala" ∷ "leafhopper" ∷ "lacewing, lacewing fly"
    ∷ "dragonfly, darning needle, devil's darning needle, sewing needle, snake feeder, snake doctor, mosquito hawk, skeeter hawk"
    ∷ "damselfly" ∷ "admiral" ∷ "ringlet, ringlet butterfly"
    ∷ "monarch, monarch butterfly, milkweed butterfly, Danaus plexippus" ∷ "cabbage butterfly"
    ∷ "sulphur butterfly, sulfur butterfly" ∷ "lycaenid, lycaenid butterfly" ∷ "starfish, sea star"
    ∷ "sea urchin" ∷ "sea cucumber, holothurian" ∷ "wood rabbit, cottontail, cottontail rabbit"
    ∷ "hare" ∷ "Angora, Angora rabbit" ∷ "hamster" ∷ "porcupine, hedgehog"
    ∷ "fox squirrel, eastern fox squirrel, Sciurus niger" ∷ "marmot" ∷ "beaver"
    ∷ "guinea pig, Cavia cobaya" ∷ "sorrel" ∷ "zebra" ∷ "hog, pig, grunter, squealer, Sus scrofa"
    ∷ "wild boar, boar, Sus scrofa" ∷ "warthog"
    ∷ "hippopotamus, hippo, river horse, Hippopotamus amphibius" ∷ "ox"
    ∷ "water buffalo, water ox, Asiatic buffalo, Bubalus bubalis" ∷ "bison" ∷ "ram, tup"
    ∷ "bighorn, bighorn sheep, cimarron, Rocky Mountain bighorn, Rocky Mountain sheep, Ovis canadensis"
    ∷ "ibex, Capra ibex" ∷ "hartebeest" ∷ "impala, Aepyceros melampus" ∷ "gazelle"
    ∷ "Arabian camel, dromedary, Camelus dromedarius" ∷ "llama" ∷ "weasel" ∷ "mink"
    ∷ "polecat, fitch, foulmart, foumart, Mustela putorius"
    ∷ "black-footed ferret, ferret, Mustela nigripes" ∷ "otter" ∷ "skunk, polecat, wood pussy"
    ∷ "badger" ∷ "armadillo" ∷ "three-toed sloth, ai, Bradypus tridactylus"
    ∷ "orangutan, orang, orangutang, Pongo pygmaeus" ∷ "gorilla, Gorilla gorilla"
    ∷ "chimpanzee, chimp, Pan troglodytes" ∷ "gibbon, Hylobates lar"
    ∷ "siamang, Hylobates syndactylus, Symphalangus syndactylus" ∷ "guenon, guenon monkey"
    ∷ "patas, hussar monkey, Erythrocebus patas" ∷ "baboon" ∷ "macaque" ∷ "langur"
    ∷ "colobus, colobus monkey" ∷ "proboscis monkey, Nasalis larvatus" ∷ "marmoset"
    ∷ "capuchin, ringtail, Cebus capucinus" ∷ "howler monkey, howler" ∷ "titi, titi monkey"
    ∷ "spider monkey, Ateles geoffroyi" ∷ "squirrel monkey, Saimiri sciureus"
    ∷ "Madagascar cat, ring-tailed lemur, Lemur catta"
    ∷ "indri, indris, Indri indri, Indri brevicaudatus" ∷ "Indian elephant, Elephas maximus"
    ∷ "African elephant, Loxodonta africana"
    ∷ "lesser panda, red panda, panda, bear cat, cat bear, Ailurus fulgens"
    ∷ "giant panda, panda, panda bear, coon bear, Ailuropoda melanoleuca" ∷ "barracouta, snoek"
    ∷ "eel" ∷ "coho, cohoe, coho salmon, blue jack, silver salmon, Oncorhynchus kisutch"
    ∷ "rock beauty, Holocanthus tricolor" ∷ "anemone fish" ∷ "sturgeon"
    ∷ "gar, garfish, garpike, billfish, Lepisosteus osseus" ∷ "lionfish"
    ∷ "puffer, pufferfish, blowfish, globefish" ∷ "abacus" ∷ "abaya" ∷ []
