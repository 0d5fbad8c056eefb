-- ===== src/Database/Schema.antt =====
-- The statements of tools/trillian/cmd/trillian/createdb/main.go, line by line.
use Prim.Native.String.{String}
use scaffolding.Base.{Bytes, List, [], ◌∷◌, ◌++◌, codes}

abbrev pub Statement : Type 0
Statement = List String

-- The text of the raw string: the lines with a line feed between them.
unfoldable pub text_of : Statement → Bytes
text_of [] = []
text_of (l ∷ []) = codes l
text_of (l ∷ m ∷ ls) = codes l ++ (10 ∷ text_of (m ∷ ls))

abbrev pub index_check : Statement
index_check =
    ""
    ∷ "\tselect count(*) from information_schema.statistics where table_schema = ? and table_name=? and index_name=?;"
    ∷ "\t" ∷ []

abbrev pub create_table_trees : Statement
create_table_trees =
    "" ∷ "\tCREATE TABLE IF NOT EXISTS Trees(" ∷ "\t  TreeId                BIGINT NOT NULL,"
    ∷ "\t  TreeState             ENUM('ACTIVE', 'FROZEN', 'DRAINING') NOT NULL,"
    ∷ "\t  TreeType              ENUM('LOG', 'MAP', 'PREORDERED_LOG') NOT NULL,"
    ∷ "\t  HashStrategy          ENUM('RFC6962_SHA256', 'TEST_MAP_HASHER', 'OBJECT_RFC6962_SHA256', 'CONIKS_SHA512_256', 'CONIKS_SHA256') NOT NULL,"
    ∷ "\t  HashAlgorithm         ENUM('SHA256') NOT NULL,"
    ∷ "\t  SignatureAlgorithm    ENUM('ECDSA', 'RSA', 'ED25519') NOT NULL,"
    ∷ "\t  DisplayName           VARCHAR(20)," ∷ "\t  Description           VARCHAR(200),"
    ∷ "\t  CreateTimeMillis      BIGINT NOT NULL," ∷ "\t  UpdateTimeMillis      BIGINT NOT NULL,"
    ∷ "\t  MaxRootDurationMillis BIGINT NOT NULL,"
    ∷ "\t  PrivateKey            MEDIUMBLOB NOT NULL,"
    ∷ "\t  PublicKey             MEDIUMBLOB NOT NULL," ∷ "\t  Deleted               BOOLEAN,"
    ∷ "\t  DeleteTimeMillis      BIGINT," ∷ "\t  PRIMARY KEY(TreeId)" ∷ "\t);" ∷ "" ∷ []

abbrev pub create_table_tree_control : Statement
create_table_tree_control =
    "" ∷ "\tCREATE TABLE IF NOT EXISTS TreeControl("
    ∷ "\t  TreeId                  BIGINT NOT NULL,"
    ∷ "\t  SigningEnabled          BOOLEAN NOT NULL,"
    ∷ "\t  SequencingEnabled       BOOLEAN NOT NULL,"
    ∷ "\t  SequenceIntervalSeconds INTEGER NOT NULL," ∷ "\t  PRIMARY KEY(TreeId),"
    ∷ "\t  FOREIGN KEY(TreeId) REFERENCES Trees(TreeId) ON DELETE CASCADE" ∷ "\t);" ∷ "" ∷ []

abbrev pub create_table_subtree : Statement
create_table_subtree =
    "" ∷ "CREATE TABLE IF NOT EXISTS Subtree(" ∷ "\t  TreeId               BIGINT NOT NULL,"
    ∷ "\t  SubtreeId            VARBINARY(255) NOT NULL,"
    ∷ "\t  Nodes                MEDIUMBLOB NOT NULL," ∷ "\t  SubtreeRevision      INTEGER NOT NULL,"
    ∷ "\t  -- Key columns must be in ASC order in order to benefit from group-by/min-max"
    ∷ "\t  -- optimization in MySQL." ∷ "\t  PRIMARY KEY(TreeId, SubtreeId, SubtreeRevision),"
    ∷ "\t  FOREIGN KEY(TreeId) REFERENCES Trees(TreeId) ON DELETE CASCADE" ∷ "\t);" ∷ "" ∷ []

abbrev pub create_table_tree_head : Statement
create_table_tree_head =
    "" ∷ "CREATE TABLE IF NOT EXISTS TreeHead(" ∷ "\t  TreeId               BIGINT NOT NULL,"
    ∷ "\t  TreeHeadTimestamp    BIGINT," ∷ "\t  TreeSize             BIGINT,"
    ∷ "\t  RootHash             VARBINARY(255) NOT NULL,"
    ∷ "\t  RootSignature        VARBINARY(1024) NOT NULL," ∷ "\t  TreeRevision         BIGINT,"
    ∷ "\t  PRIMARY KEY(TreeId, TreeHeadTimestamp),"
    ∷ "\t  FOREIGN KEY(TreeId) REFERENCES Trees(TreeId) ON DELETE CASCADE" ∷ "\t);" ∷ "" ∷ []

abbrev pub create_index_tree_head_revision : Statement
create_index_tree_head_revision =
    "" ∷ "\tCREATE UNIQUE INDEX TreeHeadRevisionIdx" ∷ "\t  ON TreeHead(TreeId, TreeRevision);" ∷ ""
    ∷ []

abbrev pub create_table_leaf_data : Statement
create_table_leaf_data =
    "" ∷ "\tCREATE TABLE IF NOT EXISTS LeafData(" ∷ "\t  TreeId               BIGINT NOT NULL,"
    ∷ "\t  -- This is a personality specific has of some subset of the leaf data."
    ∷ "\t  -- It's only purpose is to allow Trillian to identify duplicate entries in"
    ∷ "\t  -- the context of the personality." ∷ "\t  LeafIdentityHash     VARBINARY(255) NOT NULL,"
    ∷ "\t  -- This is the data stored in the leaf for example in CT it contains a DER encoded"
    ∷ "\t  -- X.509 certificate but is application dependent"
    ∷ "\t  LeafValue            LONGBLOB NOT NULL,"
    ∷ "\t  -- This is extra data that the application can associate with the leaf should it wish to."
    ∷ "\t  -- This data is not included in signing and hashing."
    ∷ "\t  ExtraData            LONGBLOB,"
    ∷ "\t  -- The timestamp from when this leaf data was first queued for inclusion."
    ∷ "\t  QueueTimestampNanos  BIGINT NOT NULL," ∷ "\t  PRIMARY KEY(TreeId, LeafIdentityHash),"
    ∷ "\t  FOREIGN KEY(TreeId) REFERENCES Trees(TreeId) ON DELETE CASCADE" ∷ "\t);" ∷ "" ∷ []

abbrev pub create_table_sequenced_leaf_data : Statement
create_table_sequenced_leaf_data =
    "" ∷ "CREATE TABLE IF NOT EXISTS SequencedLeafData("
    ∷ "\t  TreeId               BIGINT NOT NULL,"
    ∷ "\t  SequenceNumber       BIGINT UNSIGNED NOT NULL,"
    ∷ "\t  -- This is a personality specific has of some subset of the leaf data."
    ∷ "\t  -- It's only purpose is to allow Trillian to identify duplicate entries in"
    ∷ "\t  -- the context of the personality." ∷ "\t  LeafIdentityHash     VARBINARY(255) NOT NULL,"
    ∷ "\t  -- This is a MerkleLeafHash as defined by the treehasher that the log uses. For example for"
    ∷ "\t  -- CT this hash will include the leaf prefix byte as well as the leaf data."
    ∷ "\t  MerkleLeafHash       VARBINARY(255) NOT NULL,"
    ∷ "\t  IntegrateTimestampNanos BIGINT NOT NULL," ∷ "\t  PRIMARY KEY(TreeId, SequenceNumber),"
    ∷ "\t  FOREIGN KEY(TreeId) REFERENCES Trees(TreeId) ON DELETE CASCADE,"
    ∷ "\t  FOREIGN KEY(TreeId, LeafIdentityHash) REFERENCES LeafData(TreeId, LeafIdentityHash) ON DELETE CASCADE"
    ∷ "\t);" ∷ "" ∷ []

abbrev pub create_index_sequenced_leaf_merkle : Statement
create_index_sequenced_leaf_merkle =
    "" ∷ "\tCREATE INDEX SequencedLeafMerkleIdx"
    ∷ "\t  ON SequencedLeafData(TreeId, MerkleLeafHash);" ∷ "" ∷ []

abbrev pub create_table_unsequenced : Statement
create_table_unsequenced =
    "" ∷ "\tCREATE TABLE IF NOT EXISTS Unsequenced(" ∷ "\t  TreeId               BIGINT NOT NULL,"
    ∷ "\t  -- The bucket field is to allow the use of time based ring bucketed schemes if desired. If"
    ∷ "\t  -- unused this should be set to zero for all entries."
    ∷ "\t  Bucket               INTEGER NOT NULL,"
    ∷ "\t  -- This is a personality specific hash of some subset of the leaf data."
    ∷ "\t  -- It's only purpose is to allow Trillian to identify duplicate entries in"
    ∷ "\t  -- the context of the personality." ∷ "\t  LeafIdentityHash     VARBINARY(255) NOT NULL,"
    ∷ "\t  -- This is a MerkleLeafHash as defined by the treehasher that the log uses. For example for"
    ∷ "\t  -- CT this hash will include the leaf prefix byte as well as the leaf data."
    ∷ "\t  MerkleLeafHash       VARBINARY(255) NOT NULL,"
    ∷ "\t  QueueTimestampNanos  BIGINT NOT NULL,"
    ∷ "\t  -- This is a SHA256 hash of the TreeID, LeafIdentityHash and QueueTimestampNanos. It is used"
    ∷ "\t  -- for batched deletes from the table when trillian_log_server and trillian_log_signer are"
    ∷ "\t  -- built with the batched_queue tag." ∷ "\t  QueueID VARBINARY(32) DEFAULT NULL UNIQUE,"
    ∷ "\t  PRIMARY KEY (TreeId, Bucket, QueueTimestampNanos, LeafIdentityHash)" ∷ "\t);" ∷ "" ∷ []
