-- ===== src/Inference/Classes/From600.antt =====
-- The classes from 600 on (inference-contract/pdo/inference/model_scoring_scripts/image_classes.py).
use pdo_contracts.Base.{String, List, [], ◌∷◌}

unfoldable pub classes_600 : List String
classes_600 =
    "hook, claw" ∷ "hoopskirt, crinoline" ∷ "horizontal bar, high bar" ∷ "horse cart, horse-cart"
    ∷ "hourglass" ∷ "iPod" ∷ "iron, smoothing iron" ∷ "jack-o'-lantern" ∷ "jean, blue jean, denim"
    ∷ "jeep, landrover" ∷ "jersey, T-shirt, tee shirt" ∷ "jigsaw puzzle"
    ∷ "jinrikisha, ricksha, rickshaw" ∷ "joystick" ∷ "kimono" ∷ "knee pad" ∷ "knot"
    ∷ "lab coat, laboratory coat" ∷ "ladle" ∷ "lampshade, lamp shade" ∷ "laptop, laptop computer"
    ∷ "lawn mower, mower" ∷ "lens cap, lens cover" ∷ "letter opener, paper knife, paperknife"
    ∷ "library" ∷ "lifeboat" ∷ "lighter, light, igniter, ignitor" ∷ "limousine, limo"
    ∷ "liner, ocean liner" ∷ "lipstick, lip rouge" ∷ "Loafer" ∷ "lotion"
    ∷ "loudspeaker, speaker, speaker unit, loudspeaker system, speaker system"
    ∷ "loupe, jeweler's loupe" ∷ "lumbermill, sawmill" ∷ "magnetic compass" ∷ "mailbag, postbag"
    ∷ "mailbox, letter box" ∷ "maillot" ∷ "maillot, tank suit" ∷ "manhole cover" ∷ "maraca"
    ∷ "marimba, xylophone" ∷ "mask" ∷ "matchstick" ∷ "maypole" ∷ "maze, labyrinth" ∷ "measuring cup"
    ∷ "medicine chest, medicine cabinet" ∷ "megalith, megalithic structure" ∷ "microphone, mike"
    ∷ "microwave, microwave oven" ∷ "military uniform" ∷ "milk can" ∷ "minibus" ∷ "miniskirt, mini"
    ∷ "minivan" ∷ "missile" ∷ "mitten" ∷ "mixing bowl" ∷ "mobile home, manufactured home"
    ∷ "Model T" ∷ "modem" ∷ "monastery" ∷ "monitor" ∷ "moped" ∷ "mortar" ∷ "mortarboard" ∷ "mosque"
    ∷ "mosquito net" ∷ "motor scooter, scooter" ∷ "mountain bike, all-terrain bike, off-roader"
    ∷ "mountain tent" ∷ "mouse, computer mouse" ∷ "mousetrap" ∷ "moving van" ∷ "muzzle" ∷ "nail"
    ∷ "neck brace" ∷ "necklace" ∷ "nipple" ∷ "notebook, notebook computer" ∷ "obelisk"
    ∷ "oboe, hautboy, hautbois" ∷ "ocarina, sweet potato"
    ∷ "odometer, hodometer, mileometer, milometer" ∷ "oil filter" ∷ "organ, pipe organ"
    ∷ "oscilloscope, scope, cathode-ray oscilloscope, CRO" ∷ "overskirt" ∷ "oxcart" ∷ "oxygen mask"
    ∷ "packet" ∷ "paddle, boat paddle" ∷ "paddlewheel, paddle wheel" ∷ "padlock" ∷ "paintbrush"
    ∷ "pajama, pyjama, pj's, jammies" ∷ "palace" ∷ "panpipe, pandean pipe, syrinx" ∷ []

unfoldable pub classes_700 : List String
classes_700 =
    "paper towel" ∷ "parachute, chute" ∷ "parallel bars, bars" ∷ "park bench" ∷ "parking meter"
    ∷ "passenger car, coach, carriage" ∷ "patio, terrace" ∷ "pay-phone, pay-station"
    ∷ "pedestal, plinth, footstall" ∷ "pencil box, pencil case" ∷ "pencil sharpener"
    ∷ "perfume, essence" ∷ "Petri dish" ∷ "photocopier" ∷ "pick, plectrum, plectron" ∷ "pickelhaube"
    ∷ "picket fence, paling" ∷ "pickup, pickup truck" ∷ "pier" ∷ "piggy bank, penny bank"
    ∷ "pill bottle" ∷ "pillow" ∷ "ping-pong ball" ∷ "pinwheel" ∷ "pirate, pirate ship"
    ∷ "pitcher, ewer" ∷ "plane, carpenter's plane, woodworking plane" ∷ "planetarium"
    ∷ "plastic bag" ∷ "plate rack" ∷ "plow, plough" ∷ "plunger, plumber's helper"
    ∷ "Polaroid camera, Polaroid Land camera" ∷ "pole"
    ∷ "police van, police wagon, paddy wagon, patrol wagon, wagon, black Maria" ∷ "poncho"
    ∷ "pool table, billiard table, snooker table" ∷ "pop bottle, soda bottle" ∷ "pot, flowerpot"
    ∷ "potter's wheel" ∷ "power drill" ∷ "prayer rug, prayer mat" ∷ "printer"
    ∷ "prison, prison house" ∷ "projectile, missile" ∷ "projector" ∷ "puck, hockey puck"
    ∷ "punching bag, punch bag, punching ball, punchball" ∷ "purse" ∷ "quill, quill pen"
    ∷ "quilt, comforter, comfort, puff" ∷ "racer, race car, racing car" ∷ "racket, racquet"
    ∷ "radiator" ∷ "radio, wireless" ∷ "radio telescope, radio reflector" ∷ "rain barrel"
    ∷ "recreational vehicle, RV, R.V." ∷ "reel" ∷ "reflex camera" ∷ "refrigerator, icebox"
    ∷ "remote control, remote" ∷ "restaurant, eating house, eating place, eatery"
    ∷ "revolver, six-gun, six-shooter" ∷ "rifle" ∷ "rocking chair, rocker" ∷ "rotisserie"
    ∷ "rubber eraser, rubber, pencil eraser" ∷ "rugby ball" ∷ "rule, ruler" ∷ "running shoe"
    ∷ "safe" ∷ "safety pin" ∷ "saltshaker, salt shaker" ∷ "sandal" ∷ "sarong" ∷ "sax, saxophone"
    ∷ "scabbard" ∷ "scale, weighing machine" ∷ "school bus" ∷ "schooner" ∷ "scoreboard"
    ∷ "screen, CRT screen" ∷ "screw" ∷ "screwdriver" ∷ "seat belt, seatbelt" ∷ "sewing machine"
    ∷ "shield, buckler" ∷ "shoe shop, shoe-shop, shoe store" ∷ "shoji" ∷ "shopping basket"
    ∷ "shopping cart" ∷ "shovel" ∷ "shower cap" ∷ "shower curtain" ∷ "ski" ∷ "ski mask"
    ∷ "sleeping bag" ∷ "slide rule, slipstick" ∷ "sliding door" ∷ []
