-- ===== src/Inference/Classes/From400.antt =====
-- The classes from 400 on (inference-contract/pdo/inference/model_scoring_scripts/image_classes.py).
use pdo_contracts.Base.{String, List, [], ◌∷◌}

unfoldable pub classes_400 : List String
classes_400 =
    "academic gown, academic robe, judge's robe" ∷ "accordion, piano accordion, squeeze box"
    ∷ "acoustic guitar" ∷ "aircraft carrier, carrier, flattop, attack aircraft carrier" ∷ "airliner"
    ∷ "airship, dirigible" ∷ "altar" ∷ "ambulance" ∷ "amphibian, amphibious vehicle"
    ∷ "analog clock" ∷ "apiary, bee house" ∷ "apron"
    ∷ "ashcan, trash can, garbage can, wastebin, ash bin, ash-bin, ashbin, dustbin, trash barrel, trash bin"
    ∷ "assault rifle, assault gun" ∷ "backpack, back pack, knapsack, packsack, rucksack, haversack"
    ∷ "bakery, bakeshop, bakehouse" ∷ "balance beam, beam" ∷ "balloon"
    ∷ "ballpoint, ballpoint pen, ballpen, Biro" ∷ "Band Aid" ∷ "banjo"
    ∷ "bannister, banister, balustrade, balusters, handrail" ∷ "barbell" ∷ "barber chair"
    ∷ "barbershop" ∷ "barn" ∷ "barometer" ∷ "barrel, cask"
    ∷ "barrow, garden cart, lawn cart, wheelbarrow" ∷ "baseball" ∷ "basketball" ∷ "bassinet"
    ∷ "bassoon" ∷ "bathing cap, swimming cap" ∷ "bath towel" ∷ "bathtub, bathing tub, bath, tub"
    ∷ "beach wagon, station wagon, wagon, estate car, beach waggon, station waggon, waggon"
    ∷ "beacon, lighthouse, beacon light, pharos" ∷ "beaker" ∷ "bearskin, busby, shako"
    ∷ "beer bottle" ∷ "beer glass" ∷ "bell cote, bell cot" ∷ "bib"
    ∷ "bicycle-built-for-two, tandem bicycle, tandem" ∷ "bikini, two-piece" ∷ "binder, ring-binder"
    ∷ "binoculars, field glasses, opera glasses" ∷ "birdhouse" ∷ "boathouse"
    ∷ "bobsled, bobsleigh, bob" ∷ "bolo tie, bolo, bola tie, bola" ∷ "bonnet, poke bonnet"
    ∷ "bookcase" ∷ "bookshop, bookstore, bookstall" ∷ "bottlecap" ∷ "bow"
    ∷ "bow tie, bow-tie, bowtie" ∷ "brass, memorial tablet, plaque" ∷ "brassiere, bra, bandeau"
    ∷ "breakwater, groin, groyne, mole, bulwark, seawall, jetty" ∷ "breastplate, aegis, egis"
    ∷ "broom" ∷ "bucket, pail" ∷ "buckle" ∷ "bulletproof vest" ∷ "bullet train, bullet"
    ∷ "butcher shop, meat market" ∷ "cab, hack, taxi, taxicab" ∷ "caldron, cauldron"
    ∷ "candle, taper, wax light" ∷ "cannon" ∷ "canoe" ∷ "can opener, tin opener" ∷ "cardigan"
    ∷ "car mirror" ∷ "carousel, carrousel, merry-go-round, roundabout, whirligig"
    ∷ "carpenter's kit, tool kit" ∷ "carton" ∷ "car wheel"
    ∷ "cash machine, cash dispenser, automated teller machine, automatic teller machine, automated teller, automatic teller, ATM"
    ∷ "cassette" ∷ "cassette player" ∷ "castle" ∷ "catamaran" ∷ "CD player" ∷ "cello, violoncello"
    ∷ "cellular telephone, cellular phone, cellphone, cell, mobile phone" ∷ "chain"
    ∷ "chainlink fence"
    ∷ "chain mail, ring mail, mail, chain armor, chain armour, ring armor, ring armour"
    ∷ "chain saw, chainsaw" ∷ "chest" ∷ "chiffonier, commode" ∷ "chime, bell, gong"
    ∷ "china cabinet, china closet" ∷ "Christmas stocking" ∷ "church, church building"
    ∷ "cinema, movie theater, movie theatre, movie house, picture palace"
    ∷ "cleaver, meat cleaver, chopper" ∷ []

unfoldable pub classes_500 : List String
classes_500 =
    "cliff dwelling" ∷ "cloak" ∷ "clog, geta, patten, sabot" ∷ "cocktail shaker" ∷ "coffee mug"
    ∷ "coffeepot" ∷ "coil, spiral, volute, whorl, helix" ∷ "combination lock"
    ∷ "computer keyboard, keypad" ∷ "confectionery, confectionary, candy store"
    ∷ "container ship, containership, container vessel" ∷ "convertible" ∷ "corkscrew, bottle screw"
    ∷ "cornet, horn, trumpet, trump" ∷ "cowboy boot" ∷ "cowboy hat, ten-gallon hat" ∷ "cradle"
    ∷ "crane" ∷ "crash helmet" ∷ "crate" ∷ "crib, cot" ∷ "Crock Pot" ∷ "croquet ball" ∷ "crutch"
    ∷ "cuirass" ∷ "dam, dike, dyke" ∷ "desk" ∷ "desktop computer" ∷ "dial telephone, dial phone"
    ∷ "diaper, nappy, napkin" ∷ "digital clock" ∷ "digital watch" ∷ "dining table, board"
    ∷ "dishrag, dishcloth" ∷ "dishwasher, dish washer, dishwashing machine"
    ∷ "disk brake, disc brake" ∷ "dock, dockage, docking facility" ∷ "dogsled, dog sled, dog sleigh"
    ∷ "dome" ∷ "doormat, welcome mat" ∷ "drilling platform, offshore rig"
    ∷ "drum, membranophone, tympan" ∷ "drumstick" ∷ "dumbbell" ∷ "Dutch oven"
    ∷ "electric fan, blower" ∷ "electric guitar" ∷ "electric locomotive" ∷ "entertainment center"
    ∷ "envelope" ∷ "espresso maker" ∷ "face powder" ∷ "feather boa, boa"
    ∷ "file, file cabinet, filing cabinet" ∷ "fireboat" ∷ "fire engine, fire truck"
    ∷ "fire screen, fireguard" ∷ "flagpole, flagstaff" ∷ "flute, transverse flute" ∷ "folding chair"
    ∷ "football helmet" ∷ "forklift" ∷ "fountain" ∷ "fountain pen" ∷ "four-poster" ∷ "freight car"
    ∷ "French horn, horn" ∷ "frying pan, frypan, skillet" ∷ "fur coat" ∷ "garbage truck, dustcart"
    ∷ "gasmask, respirator, gas helmet" ∷ "gas pump, gasoline pump, petrol pump, island dispenser"
    ∷ "goblet" ∷ "go-kart" ∷ "golf ball" ∷ "golfcart, golf cart" ∷ "gondola" ∷ "gong, tam-tam"
    ∷ "gown" ∷ "grand piano, grand" ∷ "greenhouse, nursery, glasshouse" ∷ "grille, radiator grille"
    ∷ "grocery store, grocery, food market, market" ∷ "guillotine" ∷ "hair slide" ∷ "hair spray"
    ∷ "half track" ∷ "hammer" ∷ "hamper"
    ∷ "hand blower, blow dryer, blow drier, hair dryer, hair drier"
    ∷ "hand-held computer, hand-held microcomputer" ∷ "handkerchief, hankie, hanky, hankey"
    ∷ "hard disc, hard disk, fixed disk" ∷ "harmonica, mouth organ, harp, mouth harp" ∷ "harp"
    ∷ "harvester, reaper" ∷ "hatchet" ∷ "holster" ∷ "home theater, home theatre" ∷ "honeycomb" ∷ []
