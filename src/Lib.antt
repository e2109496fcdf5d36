-- ===== src/Lib.antt =====
-- PDO contract families: a model of the Python code around the contracts.
--
-- The program. A guardian service (common-contract/pdo/contracts/guardian) keeps capability keys and
-- contract endpoints, and answers requests over HTTP: it registers endpoints, provisions token
-- issuers and token objects with keys, and performs operations that a capability asks for. Clients
-- send it requests and resubmit while it is busy. Beside it stand the notebooks' support
-- (common-contract/pdo/contracts/jupyter) and the plugins of each contract family.
--
-- Files and what they model.
--  Base: dictionaries (Dict), exceptions over a state (Exec), JSON values (Json), paths (Paths).
--  Platform: all that the code calls and that is not in this repository: the cryptography and keys
--   of pdo.common, json, jsonschema, the reading of a WSGI request. It is a record, an argument of
--   every definition that uses it; Platform.Laws is its documented behaviour, which theorems take as
--   a hypothesis. Tests.Platform is a concrete one that meets the laws.
--  Guardian.World: the state that the handlers share. Guardian.Keys, Keystore, Registry, Secrets:
--   guardian/common/capability_keys.py, capability_keystore.py, endpoint_registry.py, secrets.py.
--  Guardian.Http: handlers with early returns. AddEndpoint, Info, Provision, ProcessCapability: the
--   files of guardian/wsgi, one function for each __call__; `serve` gives the response or the
--   exception that leaves the handler. Their child modules hold the proofs.
--   ProcessCapability.Abstract is the abstract set behind the replay check. Guardian.Threads: its
--   statements as steps of several threads, for the thread pool of guardian/scripts/guardianCLI.py.
--   Guardian.Service: the life of a service (scripts/guardianCLI.py): it opens its stores, makes the
--   handlers of wsgi/__init__.py, serves requests, and closes; what the reactor does is the list of
--   the requests and how it ends. Its child modules prove what a service keeps and what it forgets.
--  Guardian.Client: the request loops of guardian/common/guardian_service.py, over the list of what
--   the submissions meet; the loop is a recursion on that list. Client.Methods is the rest of the
--   class. Plugins.GuardianService: the shell's operations of guardian/plugins/guardian_service.py.
--  Files: send_file and recv_file of guardian/common/utility.py, over a key-value store with laws.
--  Jupyter.Family, Jupyter.Keys: find_contract_family of jupyter/utility.py, on fuel, and the key
--   maps of jupyter/keys.py, with the forms for keys in Keys.Forms. Jupyter.Services and
--   Jupyter.Groups: the services, their groups and the forms of jupyter/services.py and groups.py,
--   over the boxes of Jupyter.Widgets. Jupyter.Notebooks: the rest of jupyter/utility.py, with
--   find_contract_family on a fuel of one more than the length of the path, enough by
--   Instances.family_from-decided. Jupyter.Wallet: exchange-contract/pdo/exchange/jupyter/wallet.py,
--   with the forms that transfer (Transfer) and import (Import) assets. Jupyter.Tokens: the forms of
--   digital-asset-contract/pdo/digital_asset/jupyter, token.py and token_issuer.py.
--  Plugins: the operations and commands of exchange-contract/pdo/exchange/plugins (asset_type.py,
--   vetting.py, issuer.py, exchange.py, token_object.py, with minting in TokenObject.Mint,
--   token_issuer.py, and guardian.py as DataGuardian), of digital-asset-contract (DigitalAsset), of
--   inference-contract/pdo/inference/plugins (Inference) and of example-contract (Counter), one
--   function for each `invoke`. Plugins.Client is the client library that they call, again a record,
--   with Ledger and Storage for the ledger and the key-value stores; its laws (Client.Laws) say that
--   each call of `send_to_contract` is one message of the list `sent`, and that an operation runs on
--   a session for the same contract. Client.Relay and Client.Custody hold what the commands have in
--   common. The loop of minting has as fuel one more than the number of missing tokens.
--  Inference: the operation that a guardian serves for models (inference-contract/pdo/inference):
--   Image is CropResize of common/utility.py, Scoring the script image_classification.py, Classes
--   its table of names, and Operation the call of operations/inference.py.
--  Context: initialize_context of common-contract/pdo/contracts/common.py, over contexts with laws;
--   Context.Exchange, DigitalAsset, Inference and Counter are the templates of the families' jupyter
--   modules.
--
-- Choices. A shelve file is the dictionary that it holds; `None` stands for a closed one. Python's
-- exceptions are KeyError, jsonschema's ValidationError and others. Numbers in JSON are kept by
-- their literal. Log messages are left out, and the text of an error response is kept with the
-- exception that it formats. Requests are served one after another but in Guardian.Threads, where
-- each statement on the shared set is one step. The configuration tables are read as records with
-- the types that the documentation gives.
--
-- Not modelled: the contracts themselves (C++), notebook cells, widgets that only lay out, tables
-- in HTML, the twisted server, argument parsers and logging. OpenCV, numpy and the model server are
-- parameters.
pub mod Base
pub mod Platform
pub mod Guardian
pub mod Files
pub mod Plugins
pub mod Inference
pub mod Context
pub mod Jupyter
pub mod Tests
